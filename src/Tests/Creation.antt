-- ===== src/Tests/Creation.antt =====
-- The creation of a run in the small database.
use managed_agents_runtime.Prelude.{◌≡◌, refl, ◌∷◌, [], none, some, row}
use managed_agents_runtime.Core.Types.{RunRow, queued}
use managed_agents_runtime.Store.Database.{Db, ok, err}
use managed_agents_runtime.Store.Admissions.{
  AdmissionCapacity, lock_run_admission_tenant_row, lock_run_admission_tenant, reconcile_terminal,
  count_active, used_today, remaining_reserved, reserve_within, admit, prepare_locked,
  prepare_run_admission, new_admission, record_run_admission,
}
use managed_agents_runtime.Store.Runs.{
  CreateRunInput, admission_kind, session_of, check_session, check_version, new_run, insert_run,
  occupy_session, insert_resources, queue_run, write_run, create_run,
}
use managed_agents_runtime.Store.Runs.Creation.{create_run-queued}
use managed_agents_runtime.Transition.{lock_run, patched_run, write_transition, transition_run}
use managed_agents_runtime.Tests.Data.{run_two, db_zero}

abbrev input_one : CreateRunInput
input_one = record {
  run_id = 8;
  workspace_id = 80;
  tenant_id = 1;
  managed_session_id = none;
  agent_version_id = 3;
  goal = "count the receipts";
  input = none;
  max_steps = none;
  token_budget = some 500;
  scheduled_for = none;
  parent_run_id = none;
  replaces_run_id = none;
  replacement_generation = none;
  forked_from_run_id = none;
  progress = none;
  grants =
      record {
        id = 32;
        action = 42 ∷ [];
        resource = none;
        requires_approval = none;
        max_calls = some 3;
        expires_at = none;
      }
      ∷ [];
  debug_fault_points = [];
}

abbrev created_run : RunRow
created_run = elim (create_run input_one db_zero) [ ok (r, _) ↦ r | err _ ↦ run_two ]

abbrev db_created : Db
db_created = elim (create_run input_one db_zero) [ ok (_, db) ↦ db | err _ ↦ db_zero ]

creates : create_run input_one db_zero ≡ ok (created_run, db_created)
unfolding create_run prepare_run_admission lock_run_admission_tenant lock_run_admission_tenant_row
    prepare_locked count_active used_today remaining_reserved reserve_within admit
    reconcile_terminal session_of check_session check_version write_run insert_run occupy_session
    record_run_admission insert_resources queue_run transition_run lock_run write_transition
    patched_run new_run
creates = refl

create_run-queued_example :
    (c : AdmissionCapacity) × (mid : Db) × (prepare_run_admission 1 (some 500) db_zero
      ≡ ok (c, mid))
    × (row RunRow.id 8 db_created.runs ≡ some created_run)
    × (created_run.status ≡ queued)
    × (created_run.last_event_seq ≡ 2)
    × (created_run.tenant_id ≡ 1)
    × (created_run.token_budget ≡ c.effective_token_budget)
    × (created_run.current_attempt_id ≡ none)
    × (created_run.tokens_used ≡ 0)
    × (db_created.admissions
        ≡ new_admission 8 1 (admission_kind input_one) c.reserved_tokens ∷ mid.admissions)
create_run-queued_example = create_run-queued input_one db_zero created_run db_created creates
