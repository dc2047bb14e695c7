-- ===== src/Scheduler/Children/Spawned.antt =====
-- What `spawnChildren` of src/scheduler/children.ts leaves.
use managed_agents_runtime.Prelude.{
  ℕ, ◌+◌, String, ◌≡◌, ◌≢◌, ◌≤◌, refl, sym, ap, ◌∙◌, false, List, ◌∷◌, [], map, Option, none, some,
  arith, ◌==◌, ==_ne, ==_iff, if◌then◌else◌, ltb, any, some_injective, row, row-key, row-update_row,
  length, All, All-map,
}
use mathlib.Core.Option
use mathlib.Core.Path.{subst}
use managed_agents_runtime.Json.{Payload}
use managed_agents_runtime.Core.Types.{
  RunRow, RunStatus, EventType, running, queued, waiting_children, child_run_spawned,
}
use managed_agents_runtime.Core.StateMachine.{includes_one}
use managed_agents_runtime.Store.Database.{
  Db, ok, message, run_not_found, throw_if, or_throw, throw_if-eq-ok, or_throw-eq-ok, pure-eq-ok,
  >>=-eq-ok,
}
use managed_agents_runtime.Store.Runs.{create_run}
use managed_agents_runtime.Store.Runs.Frame.{create_run-frame}
use managed_agents_runtime.Store.Admissions.{
  lock_run_admission_tenant, lock_run_admission_tenant_row,
}
use managed_agents_runtime.Transition.{
  Patch, no_patch, patched_run, appended_run, write_event, append_event, transition_run,
}
use managed_agents_runtime.Transition.Frame.{append_event-eq-ok, transition_run-eq-ok}
use managed_agents_runtime.Transition.Status.{transition_run-status}
use managed_agents_runtime.Scheduler.Children.{
  max_delegated_children, max_delegated_goal_bytes, is_bad_count, ChildSpec, child_input,
  spawned_payload, spawn_child, spawn_each, suspend_options, spawn_children,
}

write_event-row :
    (run : RunRow) (type : EventType) (payload : Payload) (attempt : Option ℕ) (patch : Patch)
    (db : Db) (j : ℕ)
    → row RunRow.id j (write_event run type payload attempt patch db).runs ≡ (
        if run.id == j
        then Option.map
            (appended_run patch (run.last_event_seq + 1) db.now)
            (row RunRow.id j db.runs)
        else row RunRow.id j db.runs)
unfolding write_event appended_run
write_event-row run type payload attempt patch db j =
    row-update_row RunRow.id run.id j _ db.runs (λ r. refl)

-- An append leaves the rows of the other runs, and the status of its own.
pub append_event-rows :
    (run_id : ℕ) (type : EventType) (payload : Payload) (attempt : Option ℕ) (patch : Patch)
    (db : Db) (seq : ℕ) (db' : Db)
    → append_event run_id type payload attempt patch db ≡ ok (seq, db')
    → ((j : ℕ) → j ≢ run_id → row RunRow.id j db'.runs ≡ row RunRow.id j db.runs)
      × ((run r : RunRow) × (row RunRow.id run_id db.runs ≡ some run)
          × (row RunRow.id run_id db'.runs ≡ some r)
          × (r.status ≡ run.status))
append_event-rows run_id type payload attempt patch db seq db' h =
    let (run, found, _, written) =
      append_event-eq-ok run_id type payload attempt patch db seq db' h in
    let own = row-key RunRow.id run_id db.runs run found in
    (
      λ j other.
          let apart : (run.id == j) ≡ false = ==_ne run.id j (λ e. other (sym e ∙ own)) in
          ap (λ d. row RunRow.id j (Db.runs d)) written
          ∙ write_event-row run type payload attempt patch db j
          ∙ (rw apart refl),
      (
        run,
        appended_run patch (run.last_event_seq + 1) db.now run,
        found,
        ap (λ d. row RunRow.id run_id (Db.runs d)) written
            ∙ write_event-row run type payload attempt patch db run_id
            ∙ (rw ((==_iff run.id run_id).1 own, found) refl),
        unfold appended_run in refl,
      ),
    )

-- The run has a row with this status.
abbrev pub HasRow : ℕ → RunStatus → Db → Type 0
HasRow id status db = (r : RunRow) × (row RunRow.id id db.runs ≡ some r) × (r.status ≡ status)

-- A child as it stands when it was spawned.
abbrev pub IsSpawned : ℕ → Db → ChildSpec → Type 0
IsSpawned parent_run_id db c =
    (r : RunRow) × (row RunRow.id c.run_id db.runs ≡ some r)
    × (r.status ≡ queued)
    × (r.parent_run_id ≡ some parent_run_id)

nothing_found : {A : Type 0} {a : A} → none ≡ some a → ⊥
nothing_found h = absurd (cc)

module _ (tenant_id parent_run_id attempt_id : ℕ) (status : RunStatus) where
  spawn_child-rows :
      (c : ChildSpec) (db : Db) (id : ℕ) (db' : Db)
      → HasRow parent_run_id status db
      → spawn_child tenant_id parent_run_id attempt_id c db ≡ ok (id, db')
      → (id ≡ c.run_id)
        × IsSpawned parent_run_id db' c
        × (c.run_id ≢ parent_run_id)
        × HasRow parent_run_id status db'
        × ((j : ℕ) (r : RunRow)
            → j ≢ parent_run_id
            → row RunRow.id j db.runs ≡ some r
            → row RunRow.id j db'.runs ≡ some r)
  unfolding spawn_child child_input
  spawn_child-rows c db id db' (p, there, stands) h =
      let (child, d1, made, rest) =
        >>=-eq-ok (create_run (child_input tenant_id parent_run_id c)) _ db h in
      let (new, stored, named, is_queued, has_parent, _, _, others) =
        create_run-frame (child_input tenant_id parent_run_id c) db child d1 made in
      let (seq, d2, logged, last) =
        >>=-eq-ok
          (append_event parent_run_id child_run_spawned (spawned_payload child.id c.goal)
            (some attempt_id) no_patch)
          _ d1 rest in
      let (kept, (q, r, was_there, after, same_status)) =
        append_event-rows parent_run_id child_run_spawned _ (some attempt_id) no_patch d1 seq d2
          logged in
      let apart : c.run_id ≢ parent_run_id =
        (λ e. absurd (nothing_found (sym new ∙ ap (λ i. row RunRow.id i db.runs) e ∙ there))) in
      let before : q ≡ p =
        some_injective q p (sym was_there ∙ others parent_run_id (λ e. apart (sym e)) ∙ there) in
      let end : d2 ≡ db' = cc in
      subst
        (λ d.
          (id ≡ c.run_id)
          × IsSpawned parent_run_id d c
          × (c.run_id ≢ parent_run_id)
          × HasRow parent_run_id status d
          × ((j : ℕ) (r : RunRow)
              → j ≢ parent_run_id
              → row RunRow.id j db.runs ≡ some r
              → row RunRow.id j d.runs ≡ some r))
        end
        (
          (let same : child.id ≡ id = cc in sym same ∙ named),
          (child, kept c.run_id apart ∙ stored, is_queued, has_parent),
          apart,
          (r, after, same_status ∙ ap RunRow.status before ∙ stands),
          λ j r other found.
              kept j other
              ∙ others j
                  (λ e. nothing_found (sym new ∙ ap (λ i. row RunRow.id i db.runs) (sym e) ∙ found))
              ∙ found,
        )

  abbrev AreSpawned : List ChildSpec → Db → List ℕ → Db → Type 0
  AreSpawned children db ids db' =
      (ids ≡ map ChildSpec.run_id children)
      × All (λ c. IsSpawned parent_run_id db' c × (c.run_id ≢ parent_run_id)) children
      × HasRow parent_run_id status db'
      × ((j : ℕ) (r : RunRow)
          → j ≢ parent_run_id
          → row RunRow.id j db.runs ≡ some r
          → row RunRow.id j db'.runs ≡ some r)

  spawn_each-rows :
      (children : List ChildSpec) (db : Db) (ids : List ℕ) (db' : Db)
      → HasRow parent_run_id status db
      → spawn_each tenant_id parent_run_id attempt_id children db ≡ ok (ids, db')
      → AreSpawned children db ids db'
  unfolding spawn_each
  spawn_each-rows [] db ids db' there h =
      let same : db ≡ db' = cc in
      let none_made : [] ≡ ids = cc in
      subst (λ d. AreSpawned [] db ids d) same (sym none_made, tt, there, λ j r other found. found)
  spawn_each-rows (c ∷ rest) db ids db' there h =
      let (id, d1, first, h1) =
        >>=-eq-ok (spawn_child tenant_id parent_run_id attempt_id c) _ db h in
      let (named, (r, stored, is_queued, has_parent), apart, there1, kept1) =
        spawn_child-rows c db id d1 there first in
      let (others, d2, second, last) =
        >>=-eq-ok (spawn_each tenant_id parent_run_id attempt_id rest) _ d1 h1 in
      let (are_named, each, there2, kept2) = spawn_each-rows rest d1 others d2 there1 second in
      let same : d2 ≡ db' = cc in
      let made : id ∷ others ≡ ids = cc in
      subst (λ d. AreSpawned (c ∷ rest) db ids d) same
        (
          sym made ∙ ap (λ i. i ∷ others) named ∙ ap (λ is. c.run_id ∷ is) are_named,
          (((r, kept2 c.run_id r apart stored, is_queued, has_parent), apart), each),
          there2,
          λ j q other found. kept2 j q other (kept1 j q other found),
        )

suspended :
    (parent_run_id attempt_id : ℕ) (ids : List ℕ) (db : Db) (r : RunRow) (db' : Db)
    → transition_run parent_run_id (suspend_options attempt_id ids) db ≡ ok (r, db')
    → r.current_attempt_id ≡ none
unfolding patched_run
suspended parent_run_id attempt_id ids db r db' h =
    let (_, _, _, _, e, _) =
      transition_run-eq-ok parent_run_id (suspend_options attempt_id ids) db r db' h in
    ap (λ x. x.current_attempt_id) e

tenant_locked :
    (tenant_id : ℕ) (db : Db) (t : _) (db' : Db)
    → lock_run_admission_tenant tenant_id db ≡ ok (t, db')
    → db' ≡ db
unfolding lock_run_admission_tenant lock_run_admission_tenant_row
tenant_locked tenant_id db t db' h = ground arith

-- The ids returned, the children stored and the parent that waits for them.
abbrev IsDelegated : ℕ → List ℕ → List ChildSpec → Db → Type 0
IsDelegated parent_run_id ids children db =
    (ids ≡ map ChildSpec.run_id children)
    × All (IsSpawned parent_run_id db) children
    × ((p : RunRow) × (row RunRow.id parent_run_id db.runs ≡ some p)
        × (p.status ≡ waiting_children)
        × (p.current_attempt_id ≡ none))

-- The end of a delegation: the children, and then the transition of the parent.
delegated :
    (tenant_id parent_run_id attempt_id : ℕ) (status : RunStatus) (children : List ChildSpec)
    (db : Db) (ids : List ℕ) (mid : Db) (p : RunRow) (db' : Db)
    → HasRow parent_run_id status db
    → spawn_each tenant_id parent_run_id attempt_id children db ≡ ok (ids, mid)
    → transition_run parent_run_id (suspend_options attempt_id ids) mid ≡ ok (p, db')
    → IsDelegated parent_run_id ids children db' × (status ≡ running)
delegated tenant_id parent_run_id attempt_id status children db ids mid p db' there spawned waits =
    let (named, each, (q, after, as_before), _) =
      spawn_each-rows tenant_id parent_run_id attempt_id status children db ids mid there spawned in
    let (ran, ran_there, expected, _, stored, stands, _, others) =
      transition_run-status parent_run_id (suspend_options attempt_id ids) mid p db' waits in
    let same : q ≡ ran = some_injective q ran (sym after ∙ ran_there) in
    (
      (
        named,
        All-map
            (λ c ((r, found, is_queued, has_parent), apart).
              (r, others c.run_id apart ∙ found, is_queued, has_parent))
            children each,
        (p, stored, stands, suspended parent_run_id attempt_id ids mid p db' waits),
      ),
      sym as_before ∙ ap RunRow.status same ∙ includes_one running ran.status expected,
    )

count_bounds :
    (children : List ChildSpec)
    → is_bad_count children ≡ false
    → (1 ≤ length children) × (length children ≤ max_delegated_children)
count_bounds children h = (ground arith, ground arith)

short_goals :
    (byte_length : String → ℕ) (children : List ChildSpec)
    → any (λ c. ltb max_delegated_goal_bytes (byte_length c.goal)) children ≡ false
    → All (λ c. byte_length c.goal ≤ max_delegated_goal_bytes) children
short_goals byte_length [] h = tt
short_goals byte_length (c ∷ rest) h = (ground arith, short_goals byte_length rest (ground arith))

-- A delegation that succeeds has between one and eight children, none with a goal over the bound. It
-- returns their ids; each of them is stored as a queued child of the parent, and the parent, which
-- was RUNNING, waits for its children with no current attempt.
pub spawn_children-suspends :
    (byte_length : String → ℕ) (parent_run_id attempt_id : ℕ) (children : List ChildSpec) (db : Db)
    (ids : List ℕ) (db' : Db)
    → spawn_children byte_length parent_run_id attempt_id children db ≡ ok (ids, db')
    → (1 ≤ length children)
      × (length children ≤ max_delegated_children)
      × All (λ c. byte_length c.goal ≤ max_delegated_goal_bytes) children
      × (ids ≡ map ChildSpec.run_id children)
      × All (IsSpawned parent_run_id db') children
      × HasRow parent_run_id running db
      × ((p : RunRow) × (row RunRow.id parent_run_id db'.runs ≡ some p)
          × (p.status ≡ waiting_children)
          × (p.current_attempt_id ≡ none))
unfolding spawn_children
spawn_children-suspends byte_length parent_run_id attempt_id children db ids db' h =
    let (u, d0, counted, h1) =
      >>=-eq-ok (throw_if (is_bad_count children) (message "delegation requires 1-8 children")) _ db
        h in
    let (good, e0) = throw_if-eq-ok (is_bad_count children) _ db u d0 counted in
    let (v, d1, measured, h2) =
      >>=-eq-ok
        (throw_if (any (λ c. ltb max_delegated_goal_bytes (byte_length c.goal)) children)
          (message "delegated goals must not exceed 4096 encoded bytes"))
        _ d0 h1 in
    let (short, e1) = throw_if-eq-ok _ _ d0 v d1 measured in
    let (owner, d2, owned, h3) =
      >>=-eq-ok (or_throw (row RunRow.id parent_run_id d1.runs) (run_not_found parent_run_id)) _ d1
        h2 in
    let (t, d3, tenant, h4) = >>=-eq-ok (lock_run_admission_tenant owner.tenant_id) _ d2 h3 in
    let (parent, d4, locked, h5) =
      >>=-eq-ok (or_throw (row RunRow.id parent_run_id d3.runs) (run_not_found parent_run_id)) _ d3
        h4 in
    let (there, e4) = or_throw-eq-ok _ _ d3 parent d4 locked in
    let (made, d5, spawned, h6) =
      >>=-eq-ok (spawn_each parent.tenant_id parent_run_id attempt_id children) _ d4 h5 in
    let (_, e2) = or_throw-eq-ok _ _ d1 owner d2 owned in
    let since : d3 ≡ db = tenant_locked owner.tenant_id d2 t d3 tenant ∙ e2 ∙ e1 ∙ e0 in
    let (p, d6, waits, last) =
      >>=-eq-ok (transition_run parent_run_id (suspend_options attempt_id made)) _ d5 h6 in
    let (all_made, was) =
      delegated parent.tenant_id parent_run_id attempt_id parent.status children d4 made d5 p d6
        (subst (HasRow parent_run_id parent.status) (sym e4) (parent, there, refl)) spawned waits in
    let (ids_same, same) = pure-eq-ok made d6 ids db' last in
    let (low, high) = count_bounds children good in
    let (named, each, waiting) =
      subst (λ l. IsDelegated parent_run_id l children db') ids_same
        (subst (IsDelegated parent_run_id made children) same all_made) in
    (
      low,
      high,
      short_goals byte_length children short,
      named,
      each,
      subst (HasRow parent_run_id running) since (parent, there, was),
      waiting,
    )
