-- ===== src/Transition/Frame.antt =====
-- What `transitionRun` and `appendEvent` of src/core/transition.ts write, table by table.
use managed_agents_runtime.Prelude.{ℕ, ◌+◌, ◌≡◌, refl, true, Option, some, row, update_row, arith}
use managed_agents_runtime.Json.{Payload}
use managed_agents_runtime.Core.Types.{RunRow, EventType}
use managed_agents_runtime.Core.StateMachine.{includes, is_transition_allowed}
use managed_agents_runtime.Store.Database.{Db, ok}
use managed_agents_runtime.Transition.{
  TransitionOptions, Patch, lock_run, patched_run, write_transition, transition_run, write_event,
  append_event,
}

-- A transition that succeeds found its run, in an expected status, with a legal edge to the target,
-- and wrote what `write_transition` writes.
pub transition_run-eq-ok :
    (run_id : ℕ) (opts : TransitionOptions) (db : Db) (r : RunRow) (db' : Db)
    → transition_run run_id opts db ≡ ok (r, db')
    → (run : RunRow) × (row RunRow.id run_id db.runs ≡ some run)
      × (includes opts.expect_from run.status ≡ true)
      × (is_transition_allowed run.status opts.to ≡ true)
      × (r ≡ patched_run opts (run.last_event_seq + 1) db.now run)
      × (db' ≡ write_transition run opts db)
unfolding transition_run lock_run
transition_run-eq-ok run_id opts db r db' h = ground arith

-- So does an append, whose run need not be in any status.
pub append_event-eq-ok :
    (run_id : ℕ) (type : EventType) (payload : Payload) (attempt_id : Option ℕ) (patch : Patch)
    (db : Db) (seq : ℕ) (db' : Db)
    → append_event run_id type payload attempt_id patch db ≡ ok (seq, db')
    → (run : RunRow) × (row RunRow.id run_id db.runs ≡ some run)
      × (seq ≡ run.last_event_seq + 1)
      × (db' ≡ write_event run type payload attempt_id patch db)
unfolding append_event lock_run
append_event-eq-ok run_id type payload attempt_id patch db seq db' h = ground arith

module _ (run : RunRow) (opts : TransitionOptions) (db : Db) where
  pub write_transition-runs :
      (write_transition run opts db).runs
      ≡ update_row RunRow.id run.id (patched_run opts (run.last_event_seq + 1) db.now) db.runs
  unfolding write_transition
  write_transition-runs = refl
