-- ===== src/Tests/Transitions.antt =====
-- Transitions of the runs of the small database.
use managed_agents_runtime.Prelude.{ℕ, ◌+◌, ◌≡◌, ◌≢◌, ◌↔◌, refl, true, [], some, row, arith}
use managed_agents_runtime.Core.Types.{
  created, waiting_children, sleeping, suspended, failed, RunRow, model_invocation_started,
}
use managed_agents_runtime.Core.StateMachine.{includes, is_transition_allowed}
use managed_agents_runtime.Core.StateMachine.Graph.{Reaches, reachable_iff}
use managed_agents_runtime.Store.Rows.{ManagedSessionRow}
use managed_agents_runtime.Store.Database.{Db, ok}
use managed_agents_runtime.Transition.{
  lock_run, no_patch, patched_run, write_transition, transition_run, write_event, append_event,
}
use managed_agents_runtime.Transition.Ledger.{IsGapless, transition_run-IsGapless}
use managed_agents_runtime.Transition.Status.{transition_run-status}
use managed_agents_runtime.Transition.Admission.{
  AdmissionsAreLive, transition_run-AdmissionsAreLive,
}
use managed_agents_runtime.Transition.Session.{Shows, transition_run-Shows}
use managed_agents_runtime.Tests.Data.{run_one, session_seven, db_zero, fail_one}

abbrev failed_one : RunRow
failed_one = patched_run fail_one 3 100 run_one

abbrev db_one : Db
db_one = write_transition run_one fail_one db_zero

fails : transition_run 1 fail_one db_zero ≡ ok (failed_one, db_one)
unfolding transition_run lock_run
fails = refl

db_zero-IsGapless : IsGapless db_zero
db_zero-IsGapless = record { numbered = λ run_id. ground arith; mirrored = refl }

transition_run-IsGapless_example : IsGapless db_one
transition_run-IsGapless_example =
    transition_run-IsGapless 1 fail_one db_zero failed_one db_one fails db_zero-IsGapless

abbrev db_logged : Db
db_logged = write_event run_one model_invocation_started [] (some 5) no_patch db_zero

logs : append_event 1 model_invocation_started [] (some 5) no_patch db_zero ≡ ok (3, db_logged)
unfolding append_event lock_run
logs = refl

transition_run-status_example :
    (run : RunRow) × (row RunRow.id 1 db_zero.runs ≡ some run)
    × (includes fail_one.expect_from run.status ≡ true)
    × (is_transition_allowed run.status failed ≡ true)
    × (row RunRow.id 1 db_one.runs ≡ some failed_one)
    × (failed_one.status ≡ failed)
    × (failed_one.last_event_seq ≡ run.last_event_seq + 1)
    × ((j : ℕ) → j ≢ 1 → row RunRow.id j db_one.runs ≡ row RunRow.id j db_zero.runs)
transition_run-status_example = transition_run-status 1 fail_one db_zero failed_one db_one fails

live : AdmissionsAreLive db_zero
live = (λ _. refl, (λ _. refl, tt))

transition_run-AdmissionsAreLive_example : AdmissionsAreLive db_one
transition_run-AdmissionsAreLive_example =
    transition_run-AdmissionsAreLive 1 fail_one db_zero failed_one db_one fails live

transition_run-Shows_example :
    (s : ManagedSessionRow) × (row ManagedSessionRow.id 7 db_one.sessions ≡ some s)
    × Shows 1 failed s
transition_run-Shows_example =
    transition_run-Shows 1 fail_one db_zero failed_one db_one run_one 7 session_seven fails refl
      refl refl refl refl refl

reachable_iff_example :
    Reaches created waiting_children
    ↔ ((waiting_children ≢ sleeping) × (waiting_children ≢ suspended))
reachable_iff_example = reachable_iff waiting_children
