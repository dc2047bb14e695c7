-- ===== src/Scheduler/Claim/Exclusive.antt =====
-- What a claim of src/scheduler/claim.ts gives: a run that was queued, to one worker at a time, with
-- a new attempt.
use managed_agents_runtime.Prelude.{
  ℕ, ◌+◌, ◌≤◌, ◌<◌, ◌≡◌, refl, sym, ap, ◌∙◌, ◌≢◌, List, ◌∷◌, [], Bool, true, false, Option, none,
  some, arith, ◌==◌, any, row, All, All-map, Some, Some-map, Within, ◌⊎◌, leb, Bool-cases,
  Option-cases, inl, inr, some_injective,
}
use mathlib.Core.Path.{subst}
use managed_agents_runtime.Core.Types.{
  RunRow, queued, starting, RunAttemptRow, active, status_eq_sound,
}
use managed_agents_runtime.Core.StateMachine.{includes_one}
use managed_agents_runtime.Store.Database.{Db, ok}
use managed_agents_runtime.Transition.{
  TransitionOptions, transition_run, write_transition, patched_run,
}
use managed_agents_runtime.Transition.Frame.{transition_run-eq-ok}
use managed_agents_runtime.Transition.Status.{transition_run-status}
use managed_agents_runtime.Scheduler.Claim.{
  is_due, is_claimable, earlier_of, earliest, max_attempt_no, new_attempt, claim_options,
  claim_found, claim_selected, claim_run,
}

claim_found-eq-ok :
    (worker ttl id : ℕ) (found : RunRow) (db : Db) (r : RunRow) (a : RunAttemptRow) (db' : Db)
    → claim_found worker ttl id found db ≡ ok ((r, a), db')
    → (a ≡ new_attempt id found.id (max_attempt_no found.id db.attempts + 1) worker ttl db.now)
      × (any (λ b. b.id == id) db.attempts ≡ false)
      × (transition_run found.id
            (claim_options id (max_attempt_no found.id db.attempts + 1) worker)
            (record db { attempts = a ∷ db.attempts })
          ≡ ok (r, db'))
unfolding claim_found
claim_found-eq-ok worker ttl id found db r a db' h = ground arith

claim_run-eq-ok :
    (free : ℕ → Bool) (worker ttl id : ℕ) (db : Db) (r : RunRow) (a : RunAttemptRow) (db' : Db)
    → claim_run free worker ttl id db ≡ ok (some (r, a), db')
    → (found : RunRow) × (earliest (is_claimable free db.now) db.runs ≡ some found)
      × (claim_found worker ttl id found db ≡ ok ((r, a), db'))
unfolding claim_run claim_selected
claim_run-eq-ok free worker ttl id db r a db' h =
    go (earliest (is_claimable free db.now) db.runs) refl h
  where
    go :
        (o : Option RunRow)
        → earliest (is_claimable free db.now) db.runs ≡ o
        → claim_selected worker ttl id o db ≡ ok (some (r, a), db')
        → (found : RunRow) × (earliest (is_claimable free db.now) db.runs ≡ some found)
          × (claim_found worker ttl id found db ≡ ok ((r, a), db'))
    go none e k = cc
    go (some found) e k = (found, e, ground arith)

abbrev NotAfter : Option RunRow → RunRow → Type 0
NotAfter none s = ⊥
NotAfter (some best) s = best.updated_at ≤ s.updated_at

NotAfter-earlier_of :
    (x : RunRow) (o : Option RunRow) (s : RunRow)
    → NotAfter o s
    → NotAfter (some (earlier_of x o)) s
NotAfter-earlier_of x none s h = absurd h
NotAfter-earlier_of x (some best) s h = ground arith

earlier_of-NotAfter : (x : RunRow) (o : Option RunRow) → NotAfter (some (earlier_of x o)) x
earlier_of-NotAfter x none = omega arith
earlier_of-NotAfter x (some best) = ground arith

-- No row that passes the test is older than the one that `earliest` picks.
earliest-NotAfter :
    (p : RunRow → Bool) (runs : List RunRow)
    → All (λ s. p s ≡ true → NotAfter (earliest p runs) s) runs
unfolding earliest
earliest-NotAfter p [] = tt
earliest-NotAfter p (x ∷ rest) = elim (Bool-cases (p x)) [
  | inl passes ↦
      let e : earliest p (x ∷ rest) ≡ some (earlier_of x (earliest p rest)) = rw passes in
      subst (λ o. All (λ s. p s ≡ true → NotAfter o s) (x ∷ rest)) (sym e)
        (
          λ _. earlier_of-NotAfter x (earliest p rest),
          All-map (λ s h k. NotAfter-earlier_of x (earliest p rest) s (h k)) rest
              (earliest-NotAfter p rest),
        )
  | inr fails ↦
      let e : earliest p (x ∷ rest) ≡ earliest p rest = rw fails in
      subst (λ o. All (λ s. p s ≡ true → NotAfter o s) (x ∷ rest)) (sym e)
        (λ k. cc, earliest-NotAfter p rest)
]

earliest-passes :
    (p : RunRow → Bool) (runs : List RunRow) (found : RunRow)
    → earliest p runs ≡ some found
    → p found ≡ true
unfolding earliest
earliest-passes p [] found h = cc
earliest-passes p (x ∷ rest) found h = elim (Option-cases (earliest p rest)) [
  | inl nothing ↦ ground arith
  | inr (best, e) ↦ ground (arith, earliest-passes p rest best e)
]

below_max :
    (run_id : ℕ) (attempts : List RunAttemptRow)
    → All (λ b. b.run_id ≡ run_id → b.attempt_no < max_attempt_no run_id attempts + 1) attempts
unfolding max_attempt_no
below_max run_id [] = tt
below_max run_id (x ∷ rest) =
    (λ e. ground arith, All-map (λ b h k. ground (arith, h k)) rest (below_max run_id rest))

is_claimable-free :
    (free : ℕ → Bool) (now : ℕ) (r : RunRow) → is_claimable free now r ≡ true → free r.id ≡ true
is_claimable-free free now r h = ground arith

is_claimable-due :
    (free : ℕ → Bool) (now : ℕ) (r : RunRow)
    → is_claimable free now r ≡ true
    → (r.status ≡ queued) × Within r.scheduled_for (λ at. at ≤ now)
is_claimable-due free now r h =
    (status_eq_sound r.status queued (ground arith), due r.scheduled_for (ground arith))
  where
    due : (at : Option ℕ) → is_due at now ≡ true → Within at (λ t. t ≤ now)
    due none e = tt
    due (some t) e = ground arith

earlier_of-Some :
    (x : RunRow) (rest : List RunRow) (o : Option RunRow) (found : RunRow)
    → ((best : RunRow) → o ≡ some best → Some (λ r. r ≡ best) rest)
    → earlier_of x o ≡ found
    → (x ≡ found) ⊎ Some (λ r. r ≡ found) rest
earlier_of-Some x rest none found among k = inl k
earlier_of-Some x rest (some best) found among k =
    elim (Bool-cases (leb x.updated_at best.updated_at)) [
      | inl first ↦ inl (rw first at k)
      | inr later ↦ inr (subst (λ r. Some (λ s. s ≡ r) rest) (rw later at k) (among best refl))
    ]

earliest-Some :
    (p : RunRow → Bool) (runs : List RunRow) (found : RunRow)
    → earliest p runs ≡ some found
    → Some (λ r. r ≡ found) runs
unfolding earliest
earliest-Some p [] found h = absurd (cc)
earliest-Some p (x ∷ rest) found h = elim (Bool-cases (p x)) [
  | inr fails ↦ inr (earliest-Some p rest found (rw fails at h))
  | inl passes ↦
      earlier_of-Some x rest (earliest p rest) found (earliest-Some p rest)
        (some_injective _ found (rw passes at h))
]

write_transition-attempts :
    (run_id : ℕ) (opts : TransitionOptions) (db : Db) (r : RunRow) (db' : Db)
    → transition_run run_id opts db ≡ ok (r, db')
    → db'.attempts ≡ db.attempts
unfolding write_transition
write_transition-attempts run_id opts db r db' h =
    let (_, _, _, _, _, written) = transition_run-eq-ok run_id opts db r db' h in
    ap (λ d. d.attempts) written

claimed_for :
    (run_id id attempt_no worker : ℕ) (db : Db) (r : RunRow) (db' : Db)
    → transition_run run_id (claim_options id attempt_no worker) db ≡ ok (r, db')
    → r.current_attempt_id ≡ some id
unfolding patched_run
claimed_for run_id id attempt_no worker db r db' h =
    let (_, _, _, _, e, _) =
      transition_run-eq-ok run_id (claim_options id attempt_no worker) db r db' h in
    ap (λ x. x.current_attempt_id) e

-- A row of the run that a claim may take: it is queued, its time has come, and no other worker holds
-- the row.
abbrev pub IsTaken : (ℕ → Bool) → ℕ → ℕ → RunRow → Type 0
IsTaken free now run_id found =
    (found.id ≡ run_id)
    × (found.status ≡ queued)
    × (free run_id ≡ true)
    × Within found.scheduled_for (λ at. at ≤ now)

-- The attempt of a claim: active, with a lease that runs from now.
abbrev pub IsNewAttempt : ℕ → ℕ → ℕ → ℕ → ℕ → RunAttemptRow → Type 0
IsNewAttempt attempt_id run_id worker_id lease_ttl_ms now a =
    (a.id ≡ attempt_id)
    × (a.run_id ≡ run_id)
    × (a.worker_id ≡ worker_id)
    × (a.state ≡ active)
    × (a.lease_expires_at ≡ now + lease_ttl_ms)

-- A claim takes a run that was queued and due and whose row no other worker held: the run is now
-- starting under the new attempt, and the attempt is stored, is active, with a lease that runs
-- `lease_ttl_ms` from now and a number above those of all earlier attempts of the run.
pub claim_run-starts :
    (free : ℕ → Bool) (worker_id lease_ttl_ms attempt_id : ℕ) (db : Db) (r : RunRow)
    (a : RunAttemptRow) (db' : Db)
    → claim_run free worker_id lease_ttl_ms attempt_id db ≡ ok (some (r, a), db')
    → (run_id : ℕ) × (run : RunRow) × (row RunRow.id run_id db.runs ≡ some run)
      × (run.status ≡ queued)
      × Some (IsTaken free db.now run_id) db.runs
      × (row RunRow.id run_id db'.runs ≡ some r)
      × (r.status ≡ starting)
      × (r.current_attempt_id ≡ some attempt_id)
      × IsNewAttempt attempt_id run_id worker_id lease_ttl_ms db.now a
      × (db'.attempts ≡ a ∷ db.attempts)
      × All (λ b. b.run_id ≡ run_id → b.attempt_no < a.attempt_no) db.attempts
claim_run-starts free worker ttl id db r a db' h =
    let (found, picked, claimed) = claim_run-eq-ok free worker ttl id db r a db' h in
    let (made, _, moved) = claim_found-eq-ok worker ttl id found db r a db' claimed in
    let (run, there, expected, _, now_there, status, _, _) =
      transition_run-status found.id _ (record db { attempts = a ∷ db.attempts }) r db' moved in
    let no : a.attempt_no ≡ max_attempt_no found.id db.attempts + 1 =
      ap RunAttemptRow.attempt_no made in
    let passes = earliest-passes _ db.runs found picked in
    let (waits, due) = is_claimable-due free db.now found passes in
    let unlocked = is_claimable-free free db.now found passes in
    (
      found.id,
      run,
      there,
      includes_one queued run.status expected,
      Some-map _ (IsTaken free db.now found.id)
          (λ s same. subst (IsTaken free db.now found.id) (sym same) (refl, waits, unlocked, due))
          db.runs (earliest-Some _ db.runs found picked),
      now_there,
      status,
      claimed_for found.id id _ worker _ r db' moved,
      (
        ap RunAttemptRow.id made,
        ap RunAttemptRow.run_id made,
        ap RunAttemptRow.worker_id made,
        ap RunAttemptRow.state made,
        ap RunAttemptRow.lease_expires_at made,
      ),
      write_transition-attempts found.id _ (record db { attempts = a ∷ db.attempts }) r db' moved,
      subst (λ n. All (λ b. b.run_id ≡ found.id → b.attempt_no < n) db.attempts) (sym no)
          (below_max found.id db.attempts),
    )

-- Two claims, one after the other, by any workers, take different runs.
pub claim_run-exclusive :
    (free again : ℕ → Bool) (worker other ttl ttl' id id' : ℕ) (db : Db) (r : RunRow)
    (a : RunAttemptRow) (mid : Db) (r' : RunRow) (a' : RunAttemptRow) (db' : Db)
    → claim_run free worker ttl id db ≡ ok (some (r, a), mid)
    → claim_run again other ttl' id' mid ≡ ok (some (r', a'), db')
    → a.run_id ≢ a'.run_id
claim_run-exclusive free again worker other ttl ttl' id id' db r a mid r' a' db' h h' same =
    let (j, _, _, _, _, now_there, status, _, (_, made, _, _, _), _, _) =
      claim_run-starts free worker ttl id db r a mid h in
    let (k, run, there, was_queued, _, _, _, _, (_, made', _, _, _), _, _) =
      claim_run-starts again other ttl' id' mid r' a' db' h' in
    let e : j ≡ k = sym made ∙ same ∙ made' in
    let one : r ≡ run =
      some_injective r run (sym now_there ∙ ap (λ i. row RunRow.id i (Db.runs mid)) e ∙ there) in
    let clash : starting ≡ queued = sym status ∙ ap RunRow.status one ∙ was_queued in cc

claim_selected-none :
    (free : ℕ → Bool) (worker ttl id : ℕ) (db db' : Db)
    → claim_run free worker ttl id db ≡ ok (none, db')
    → (earliest (is_claimable free db.now) db.runs ≡ none) × (db' ≡ db)
unfolding claim_run claim_selected
claim_selected-none free worker ttl id db db' h =
    go (earliest (is_claimable free db.now) db.runs) refl h
  where
    go :
        (o : Option RunRow)
        → earliest (is_claimable free db.now) db.runs ≡ o
        → claim_selected worker ttl id o db ≡ ok (none, db')
        → (earliest (is_claimable free db.now) db.runs ≡ none) × (db' ≡ db)
    go none e k = (e, cc)
    go (some found) e k = absurd (ground arith)

-- A worker goes away empty-handed only where no run can be claimed: each is locked by another worker,
-- not queued or not yet due; and nothing is changed.
pub claim_run-none :
    (free : ℕ → Bool) (worker_id lease_ttl_ms attempt_id : ℕ) (db db' : Db)
    → claim_run free worker_id lease_ttl_ms attempt_id db ≡ ok (none, db')
    → All (λ r. is_claimable free db.now r ≡ false) db.runs × (db' ≡ db)
claim_run-none free worker ttl id db db' h =
    let (nothing, same) = claim_selected-none free worker ttl id db db' h in
    (
      All-map (λ r k. none_claimable r k) db.runs
          (subst (λ o. All (λ s. is_claimable free db.now s ≡ true → NotAfter o s) db.runs) nothing
            (earliest-NotAfter (is_claimable free db.now) db.runs)),
      same,
    )
  where
    none_claimable :
        (r : RunRow) → (is_claimable free db.now r ≡ true → ⊥) → is_claimable free db.now r ≡ false
    none_claimable r k = elim (Bool-cases (is_claimable free db.now r)) [
      | inl e ↦ absurd (k e)
      | inr e ↦ e
    ]
