-- ===== src/Tests/Data.antt =====
-- A small database: a running run under its second attempt, a queued run and a completed one.
use managed_agents_runtime.Prelude.{ℕ, true, ◌∷◌, [], none, some}
use managed_agents_runtime.Core.Types.{
  RunStatus, running, queued, completed, RunRow, RunEventRow, EventType, run_created,
  attempt_started, run_completed, run_failed, RunAttemptRow, AttemptState,
}
use managed_agents_runtime.Store.Rows.{
  TenantRow, TenantStatus, AdmissionRow, direct, ManagedSessionRow, ManagedSessionState,
  CapabilityGrantRow, ApprovalRow, ApprovalStatus, ToolReceiptRow, ReceiptStatus, OutboxRow,
}
use managed_agents_runtime.Store.Database.{Db}
use managed_agents_runtime.Transition.{TransitionOptions, no_patch}

abbrev pub blank_run : ℕ → RunStatus → ℕ → RunRow
blank_run id status seq = record {
  id = id;
  tenant_id = 1;
  managed_session_id = none;
  agent_version_id = 3;
  parent_run_id = none;
  replaces_run_id = none;
  replacement_generation = 0;
  forked_from_run_id = none;
  goal = "tidy the ledger";
  input = [];
  status = status;
  status_reason = none;
  result = none;
  result_size_bytes = none;
  progress = [];
  workspace_id = none;
  current_attempt_id = none;
  last_event_seq = seq;
  max_steps = 50;
  token_budget = some 1000;
  tokens_used = 0;
  awaited_signal = none;
  awaited_signal_correlation_id = none;
  awaited_signal_schema = none;
  scheduled_for = none;
  debug_fault_points = [];
  created_at = 10;
  updated_at = 20;
}

abbrev pub run_one : RunRow
run_one = record (blank_run 1 running 2) {
  managed_session_id = some 7;
  current_attempt_id = some 5;
  tokens_used = 100;
}

abbrev pub run_two : RunRow
run_two = blank_run 2 queued 1

abbrev pub run_three : RunRow
run_three = blank_run 3 completed 1

abbrev pub event : ℕ → ℕ → EventType → RunEventRow
event run_id seq type = record {
  run_id = run_id;
  seq = seq;
  type = type;
  payload = [];
  attempt_id = none;
  created_at = 10;
}

abbrev pub message_of : ℕ → ℕ → ℕ → EventType → OutboxRow
message_of id key seq type = record {
  id = id;
  topic = "run_events";
  key = key;
  seq = seq;
  type = type;
  payload = [];
  created_at = 10;
  published_at = none;
}

abbrev pub attempt_of : ℕ → ℕ → ℕ → RunAttemptRow
attempt_of id attempt_no lease = record {
  id = id;
  run_id = 1;
  attempt_no = attempt_no;
  worker_id = 9;
  state = AttemptState.active;
  lease_expires_at = lease;
  heartbeat_at = 20;
  sandbox_id = none;
  sandbox_domain = none;
  started_from_checkpoint_id = none;
  exit_reason = none;
  created_at = 20;
}

-- Its lease has expired, though it was never marked.
abbrev pub stale_attempt : RunAttemptRow
stale_attempt = attempt_of 4 1 50

abbrev pub live_attempt : RunAttemptRow
live_attempt = attempt_of 5 2 500

abbrev pub tenant_one : TenantRow
tenant_one = record {
  id = 1;
  name = "acme";
  status = TenantStatus.active;
  max_concurrent_runs = some 5;
  daily_token_budget = some 10000;
  created_at = 1;
}

abbrev pub admission_of : ℕ → AdmissionRow
admission_of run_id = record {
  run_id = run_id;
  tenant_id = 1;
  kind = direct;
  active = true;
  reserved_tokens = 1000;
  released_at = none;
  release_reason = none;
}

abbrev pub session_seven : ManagedSessionRow
session_seven = record {
  id = 7;
  tenant_id = 1;
  principal_id = 2;
  agent_version_id = 3;
  objective = "tidy the ledger";
  correlation_ref = none;
  state = ManagedSessionState.active;
  version = 4;
  policy = [];
  credential_grant_refs = [];
  created_at = 15;
  current_top_level_run_id = some 1;
  updated_at = 20;
}

-- `fs.*` on `/*`, for two calls, of which one is used.
abbrev pub grant_one : CapabilityGrantRow
grant_one = record {
  id = 31;
  run_id = 1;
  action_pattern = 102 ∷ 115 ∷ 46 ∷ 42 ∷ [];
  resource_pattern = 47 ∷ 42 ∷ [];
  requires_approval = true;
  max_calls = some 2;
  calls_used = 1;
  expires_at = some 900;
  created_at = 10;
}

abbrev pub approval_of : ApprovalStatus → ApprovalRow
approval_of status = record {
  id = 41;
  run_id = 1;
  requested_by_attempt_id = some 5;
  action = 102 ∷ 115 ∷ 46 ∷ 119 ∷ [];
  resource = 47 ∷ 97 ∷ [];
  idem_key = 77;
  status = status;
  decision_by = none;
  decided_at = none;
  expires_at = some 900;
  created_at = 30;
}

abbrev pub receipt_one : ToolReceiptRow
receipt_one = record {
  id = 51;
  run_id = 1;
  attempt_id = 5;
  step = 1;
  semantic_action = "fs.w";
  request_digest = 66;
  idempotency_key = 77;
  approval_id = some 41;
  status = ReceiptStatus.pending;
  external_txn_id = none;
  result_digest = none;
  result = none;
  reversibility = "unknown";
  started_at = 40;
  completed_at = none;
}

abbrev pub db_zero : Db
db_zero = record {
  now = 100;
  runs = run_one ∷ run_two ∷ run_three ∷ [];
  events =
      event 1 1 run_created
      ∷ event 2 1 run_created
      ∷ event 1 2 attempt_started
      ∷ event 3 1 run_completed
      ∷ [];
  outbox =
      message_of 1 1 1 run_created
      ∷ message_of 2 2 1 run_created
      ∷ message_of 3 1 2 attempt_started
      ∷ message_of 4 3 1 run_completed
      ∷ [];
  attempts = stale_attempt ∷ live_attempt ∷ [];
  tenants = tenant_one ∷ [];
  admissions = admission_of 1 ∷ admission_of 2 ∷ [];
  sessions = session_seven ∷ [];
  grants = grant_one ∷ [];
  approvals = approval_of ApprovalStatus.approved ∷ [];
  receipts = receipt_one ∷ [];
  workspaces = [];
  agent_tenant = λ version. some 1;
}

abbrev pub fail_one : TransitionOptions
fail_one = record {
  expect_from = running ∷ [];
  to = RunStatus.failed;
  type = run_failed;
  payload = [];
  attempt_id = some 5;
  reason = none;
  patch = no_patch;
}
