-- ===== src/Transition/Status.antt =====
-- What `transitionRun` of src/core/transition.ts does to the status of runs, and when it refuses.
use managed_agents_runtime.Prelude.{
  ℕ, ◌+◌, ◌≡◌, refl, sym, ap, ◌∙◌, ◌≢◌, inl, inr, true, false, some, row, arith, if◌then◌else◌,
  ◌==◌, row-update_row, row-key, Bool-cases, ==_iff, ==_ne,
}
use mathlib.Core.Option
use managed_agents_runtime.Core.Types.{RunRow}
use managed_agents_runtime.Core.StateMachine.{includes, is_transition_allowed, is_terminal}
use managed_agents_runtime.Core.StateMachine.Graph.{is_terminal_iff}
use managed_agents_runtime.Store.Database.{
  Db, Error, ok, err, unexpected_status, invalid_transition,
}
use managed_agents_runtime.Transition.{
  TransitionOptions, lock_run, patched_run, write_transition, transition_run,
}
use managed_agents_runtime.Transition.Frame.{transition_run-eq-ok}

-- The outcome of a transition in each case of its three checks.
transition_run_branches :
    (run_id : ℕ) (opts : TransitionOptions) (db : Db) (run : RunRow)
    → row RunRow.id run_id db.runs ≡ some run
    → (includes opts.expect_from run.status ≡ false
        → transition_run run_id opts db
          ≡ err (unexpected_status run_id run.status opts.expect_from))
      × (includes opts.expect_from run.status ≡ true
          → is_transition_allowed run.status opts.to ≡ false
          → transition_run run_id opts db ≡ err (invalid_transition run_id run.status opts.to))
      × (includes opts.expect_from run.status ≡ true
          → is_transition_allowed run.status opts.to ≡ true
          → transition_run run_id opts db
            ≡ ok (
              patched_run opts (run.last_event_seq + 1) db.now run,
              write_transition run opts db,
            ))
unfolding transition_run lock_run
transition_run_branches run_id opts db run found =
    (λ a. ground arith, λ a b. ground arith, λ a b. ground arith)

write_transition-row :
    (run : RunRow) (opts : TransitionOptions) (db : Db) (j : ℕ)
    → row RunRow.id j (write_transition run opts db).runs ≡ (
        if run.id == j
        then Option.map (patched_run opts (run.last_event_seq + 1) db.now) (row RunRow.id j db.runs)
        else row RunRow.id j db.runs)
unfolding write_transition patched_run
write_transition-row run opts db j = row-update_row RunRow.id run.id j _ db.runs (λ r. refl)

-- A transition that succeeds follows an edge of the table: its run stood in an expected status with
-- a legal edge to the target, and now stands in the target status with one event more; the rows of
-- all other runs are as they were.
pub transition_run-status :
    (run_id : ℕ) (opts : TransitionOptions) (db : Db) (r : RunRow) (db' : Db)
    → transition_run run_id opts db ≡ ok (r, db')
    → (run : RunRow) × (row RunRow.id run_id db.runs ≡ some run)
      × (includes opts.expect_from run.status ≡ true)
      × (is_transition_allowed run.status opts.to ≡ true)
      × (row RunRow.id run_id db'.runs ≡ some r)
      × (r.status ≡ opts.to)
      × (r.last_event_seq ≡ run.last_event_seq + 1)
      × ((j : ℕ) → j ≢ run_id → row RunRow.id j db'.runs ≡ row RunRow.id j db.runs)
transition_run-status run_id opts db r db' h =
    let (run, found, expected, legal, returned, written) =
      transition_run-eq-ok run_id opts db r db' h in
    let own : run.id ≡ run_id = row-key RunRow.id run_id db.runs run found in
    let same : (run.id == run_id) ≡ true = (==_iff _ _).1 own in
    (
      run,
      found,
      expected,
      legal,
      ap (λ d. row RunRow.id run_id (Db.runs d)) written
          ∙ write_transition-row run opts db run_id
          ∙ (rw (same, found))
          ∙ ap (λ x. some x) (sym returned),
      ap RunRow.status returned ∙ (unfold patched_run in refl),
      ap RunRow.last_event_seq returned ∙ (unfold patched_run in refl),
      λ j other.
          let apart : (run.id == j) ≡ false = ==_ne run.id j (λ e. other (sym e ∙ own)) in
          ap (λ d. row RunRow.id j (Db.runs d)) written
          ∙ write_transition-row run opts db j
          ∙ (rw apart),
    )

-- A run in a terminal status stays as it is: each transition of it is refused.
pub terminal_run-refused :
    (run_id : ℕ) (opts : TransitionOptions) (db : Db) (run : RunRow)
    → row RunRow.id run_id db.runs ≡ some run
    → is_terminal run.status ≡ true
    → (e : Error) × (transition_run run_id opts db ≡ err e)
terminal_run-refused run_id opts db run found ended =
    let (unexpected, illegal, _) = transition_run_branches run_id opts db run found in
    elim (Bool-cases (includes opts.expect_from run.status)) [
      | inl listed ↦ (_, illegal listed (((is_terminal_iff run.status).0).0 ended opts.to))
      | inr other ↦ (_, unexpected other)
    ]

-- A transition that passes the checks, with the rows that it leaves.
pub transition_run-total :
    (run_id : ℕ) (opts : TransitionOptions) (db : Db) (run : RunRow)
    → row RunRow.id run_id db.runs ≡ some run
    → includes opts.expect_from run.status ≡ true
    → is_transition_allowed run.status opts.to ≡ true
    → (db' : Db) × (transition_run run_id opts db
        ≡ ok (patched_run opts (run.last_event_seq + 1) db.now run, db'))
      × (row RunRow.id run_id db'.runs
          ≡ some (patched_run opts (run.last_event_seq + 1) db.now run))
      × ((j : ℕ) → j ≢ run_id → row RunRow.id j db'.runs ≡ row RunRow.id j db.runs)
      × (db'.attempts ≡ db.attempts)
      × (db'.now ≡ db.now)
transition_run-total run_id opts db run found listed legal =
    let done = (transition_run_branches run_id opts db run found).2 listed legal in
    let (_, _, _, _, there, _, _, others) = transition_run-status run_id opts db _ _ done in
    (
      write_transition run opts db,
      done,
      there,
      others,
      unfold write_transition in refl,
      unfold write_transition in refl,
    )
