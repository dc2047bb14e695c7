-- ===== src/Scheduler/Children/Woken.antt =====
-- When `wakeReadyParents` of src/scheduler/children.ts resumes a parent.
use managed_agents_runtime.Prelude.{
  ℕ, ◌≡◌, ◌≢◌, inl, inr, refl, sym, ap, Bool, true, false, not, ◌&&◌, List, ◌∷◌, [], Option, none,
  some, arith, ◌==◌, ==_iff, row, filter, find, find-passes, find-Some, Some, any, All, Bool-cases,
  and-parts,
}
use mathlib.Core.Path.{subst}
use managed_agents_runtime.Core.Types.{RunRow, queued, waiting_children, status_eq_sound}
use managed_agents_runtime.Core.StateMachine.{is_terminal}
use managed_agents_runtime.Store.Database.{
  Db, Result, ok, err, admission_rejected, >>=-eq-ok, pure-eq-ok,
}
use managed_agents_runtime.Store.Admissions.{lock_run_admission_tenant_row}
use managed_agents_runtime.Store.ChildLineage.{ArtifactRefRow, child_lineage_projection}
use managed_agents_runtime.Transition.{patched_run, transition_run}
use managed_agents_runtime.Transition.Frame.{transition_run-eq-ok}
use managed_agents_runtime.Transition.Status.{transition_run-status}
use managed_agents_runtime.Scheduler.Children.Replace.{
  WakeResult, nothing, is_child, NewIds, current_children, is_replaceable, defer_replacement,
  settle_replacements,
}
use managed_agents_runtime.Scheduler.Children.Wake.{
  is_ready, of_lineage, wake_options, wake_parent, replace_or_wake, resolve_claimed,
  resolve_candidate,
}

-- A parent that was resumed, as it stands afterwards.
abbrev pub IsResumed : ℕ → Db → Type 0
IsResumed id db =
    (r : RunRow) × (row RunRow.id id db.runs ≡ some r)
    × (r.status ≡ queued)
    × (r.current_attempt_id ≡ none)

wake_parent-IsResumed :
    (artifacts : List ArtifactRefRow) (parent : RunRow) (db : Db) (o : WakeResult) (db' : Db)
    → wake_parent artifacts parent db ≡ ok (o, db')
    → IsResumed parent.id db'
unfolding wake_parent patched_run
wake_parent-IsResumed artifacts parent db o db' h =
    let (lineage, d1, _, h1) =
      >>=-eq-ok (of_lineage (child_lineage_projection artifacts parent.id parent.tenant_id db)) _ db
        h in
    let (r, d2, moved, last) =
      >>=-eq-ok (transition_run parent.id (wake_options lineage.selected)) _ d1 h1 in
    let (_, _, _, _, stored, status, _, _) =
      transition_run-status parent.id (wake_options lineage.selected) d1 r d2 moved in
    let (_, _, _, _, e, _) =
      transition_run-eq-ok parent.id (wake_options lineage.selected) d1 r d2 moved in
    let (_, same) = pure-eq-ok _ d2 o db' last in
    subst (IsResumed parent.id) same (r, stored, status, ap (λ x. x.current_attempt_id) e)

defer_wakes_none :
    (id : ℕ) (reason : _) (db : Db) (o : WakeResult) (db' : Db)
    → defer_replacement id reason db ≡ ok (o, db')
    → o.woken ≡ []
unfolding defer_replacement
defer_wakes_none id reason db o db' h = ground arith

settle_wakes_none :
    (id : ℕ) (r : Result (List ℕ × Db)) (db : Db) (o : WakeResult) (db' : Db)
    → settle_replacements id r db ≡ ok (o, db')
    → o.woken ≡ []
unfolding settle_replacements
settle_wakes_none id (ok (ids, d)) db o db' h = ground arith
settle_wakes_none id (err (admission_rejected reason)) db o db' h =
    defer_wakes_none id reason db o db' h
settle_wakes_none id (err e) db o db' h = absurd (cc)

replace_or_wake_woken :
    (artifacts : List ArtifactRefRow) (fresh : ℕ → NewIds) (parent : RunRow) (failed : List RunRow)
    (db : Db) (o : WakeResult) (db' : Db)
    → replace_or_wake artifacts fresh parent failed db ≡ ok (o, db')
    → o.woken ≢ []
    → (failed ≡ []) × IsResumed parent.id db'
unfolding replace_or_wake
replace_or_wake_woken artifacts fresh parent [] db o db' h woken =
    (refl, wake_parent-IsResumed artifacts parent db o db' h)
replace_or_wake_woken artifacts fresh parent (k ∷ rest) db o db' h woken =
    absurd (woken (settle_wakes_none parent.id _ db o db' h))

resolve_claimed_woken :
    (artifacts : List ArtifactRefRow) (fresh : ℕ → NewIds) (cap : ℕ) (claimed : Option RunRow)
    (db : Db) (o : WakeResult) (db' : Db)
    → resolve_claimed artifacts fresh cap claimed db ≡ ok (o, db')
    → o.woken ≢ []
    → (parent : RunRow) × (claimed ≡ some parent)
      × (filter (is_replaceable cap) (current_children parent.id db) ≡ [])
      × IsResumed parent.id db'
unfolding resolve_claimed
resolve_claimed_woken artifacts fresh cap none db o db' h woken =
    let (same, _) = pure-eq-ok nothing db o db' h in absurd (woken (ap (λ r. r.woken) (sym same)))
resolve_claimed_woken artifacts fresh cap (some parent) db o db' h woken =
    let (none_failed, resumed) = replace_or_wake_woken artifacts fresh parent _ db o db' h woken in
    (parent, refl, none_failed, resumed)

negated : (b : Bool) → not b ≡ true → b ≡ false
negated b h = ground arith

none_open :
    (id : ℕ) (runs : List RunRow)
    → any (λ c. is_child id c && not (is_terminal c.status)) runs ≡ false
    → All (λ c. is_child id c ≡ true → is_terminal c.status ≡ true) runs
none_open id [] h = tt
none_open id (r ∷ runs) h = (λ child. ground arith, none_open id runs (ground arith))

none_passes :
    (p : RunRow → Bool) (rows : List RunRow) → filter p rows ≡ [] → All (λ r. p r ≡ false) rows
none_passes p [] h = tt
none_passes p (r ∷ rows) h = (ground arith, none_passes p rows (ground arith))

tenant_row_same :
    (tenant_id : ℕ) (db : Db) (t : _) (db' : Db)
    → lock_run_admission_tenant_row tenant_id db ≡ ok (t, db')
    → db' ≡ db
unfolding lock_run_admission_tenant_row
tenant_row_same tenant_id db t db' h = ground arith

-- The parent that was found, as it and its children stood before.
abbrev pub WasReady : ℕ → RunRow → Db → Db → Type 0
WasReady max_replacements candidate db db' =
    (parent : RunRow) × (parent.id ≡ candidate.id)
    × Some (λ p. p ≡ parent) db.runs
    × (parent.status ≡ waiting_children)
    × All (λ c. is_child parent.id c ≡ true → is_terminal c.status ≡ true) db.runs
    × All (λ k. is_replaceable max_replacements k ≡ false) (current_children parent.id db)
    × IsResumed candidate.id db'

ready_parts :
    (runs : List RunRow) (p : RunRow)
    → is_ready runs p ≡ true
    → (p.status ≡ waiting_children)
      × All (λ c. is_child p.id c ≡ true → is_terminal c.status ≡ true) runs
unfolding is_ready
ready_parts runs p h =
    let (waits, closed) = and-parts _ _ h in
    (status_eq_sound p.status waiting_children waits, none_open p.id runs (negated _ closed))

found_woken :
    (artifacts : List ArtifactRefRow) (fresh : ℕ → NewIds) (is_free : RunRow → Bool) (cap : ℕ)
    (candidate : RunRow) (db : Db) (o : WakeResult) (db' : Db)
    → resolve_claimed artifacts fresh cap
        (find (λ p. (p.id == candidate.id) && is_ready db.runs p && is_free p) db.runs)
        db
      ≡ ok (o, db')
    → o.woken ≢ []
    → WasReady cap candidate db db'
found_woken artifacts fresh is_free cap candidate db o db' h woken =
    let (parent, found, none_failed, resumed) =
      resolve_claimed_woken artifacts fresh cap _ db o db' h woken in
    let passes =
      find-passes (λ p. (p.id == candidate.id) && is_ready db.runs p && is_free p) db.runs parent
        found in
    let (front, free) = and-parts _ _ passes in
    let (named, ready) = and-parts _ _ front in
    let (waits, closed) = ready_parts db.runs parent ready in
    let own = (==_iff parent.id candidate.id).0 named in
    (
      parent,
      own,
      find-Some (λ p. (p.id == candidate.id) && is_ready db.runs p && is_free p) db.runs parent
          found,
      waits,
      closed,
      none_passes _ _ none_failed,
      subst (λ id. IsResumed id db') own resumed,
    )

-- A parent is resumed only when its row in the table waits for children, each of its children has ended, and none of
-- those that nothing replaces may be replaced; it then stands in the queue with no current attempt.
pub resolve_candidate-IsResumed :
    (artifacts : List ArtifactRefRow) (fresh : ℕ → NewIds) (try_lock : ℕ → Bool)
    (is_free : RunRow → Bool) (max_replacements : ℕ) (candidate : RunRow) (db : Db) (o : WakeResult)
    (db' : Db)
    → resolve_candidate artifacts fresh try_lock is_free max_replacements candidate db ≡ ok (o, db')
    → o.woken ≢ []
    → WasReady max_replacements candidate db db'
unfolding resolve_candidate
resolve_candidate-IsResumed artifacts fresh try_lock is_free max_replacements candidate db o db' h
      woken =
    elim (Bool-cases (try_lock candidate.id)) [
      | inr busy ↦
          let here = rw busy at h in
          let (same, _) = pure-eq-ok nothing db o db' here in
          absurd (woken (ap (λ r. r.woken) (sym same)))
      | inl locked ↦
          let here = rw locked at h in
          let (t, d1, row_locked, h1) =
            >>=-eq-ok (lock_run_admission_tenant_row candidate.tenant_id) _ db here in
          subst (λ d. WasReady max_replacements candidate d db')
            (tenant_row_same candidate.tenant_id db t d1 row_locked)
            (found_woken artifacts fresh is_free max_replacements candidate d1 o db' h1 woken)
    ]
