-- ===== src/Store/Runs.antt =====
-- src/store/runs.ts: the creation of a run. What `newId` returns is part of the input.
pub mod Creation
pub mod Frame
use managed_agents_runtime.Prelude.{
  ℕ, ◌+◌, String, Bool, true, false, not, ◌&&◌, ◌||◌, List, ◌∷◌, [], Option, none, some,
  if◌then◌else◌, ◌==◌, any, row, update_row,
}
use managed_agents_runtime.Json.{Payload, str, num}
use managed_agents_runtime.Core.Types.{RunRow, created, resolving, queued, run_created, run_queued}
use managed_agents_runtime.Store.Rows.{
  Text, RunAdmissionKind, direct, fork, delegated, replacement, ManagedSessionRow,
  ManagedSessionState, CapabilityGrantRow,
}
use managed_agents_runtime.Store.Database.{
  Db, Tx, pure, ◌>>=◌, ◌>>◌, gets, modify, throw_if, throw, or_throw, message, session_admission,
  agent_version_mismatch, duplicate_key,
}
use managed_agents_runtime.Store.Admissions.{
  AdmissionCapacity, prepare_run_admission, record_run_admission,
}
use managed_agents_runtime.Transition.{TransitionOptions, no_patch, coalesce, transition_run}

pub record GrantInput : Type 0 where
  pub id : ℕ
  pub action : Text
  pub resource : Option Text
  pub requires_approval : Option Bool
  pub max_calls : Option ℕ
  pub expires_at : Option ℕ

-- `run_id` and `workspace_id` are the new identifiers.
pub record CreateRunInput : Type 0 where
  pub run_id : ℕ
  pub workspace_id : ℕ
  pub tenant_id : ℕ
  pub managed_session_id : Option ℕ
  pub agent_version_id : ℕ
  pub goal : String
  pub input : Option Payload
  pub max_steps : Option ℕ
  pub token_budget : Option ℕ
  pub scheduled_for : Option ℕ
  pub parent_run_id : Option ℕ
  pub replaces_run_id : Option ℕ
  pub replacement_generation : Option ℕ
  pub forked_from_run_id : Option ℕ
  pub progress : Option Payload
  pub grants : List GrantInput
  pub debug_fault_points : List String

abbrev kind_of : Option ℕ → Option ℕ → Option ℕ → RunAdmissionKind
kind_of (some replaced) parent forked = replacement
kind_of none (some parent) forked = delegated
kind_of none none (some forked) = fork
kind_of none none none = direct

unfoldable pub admission_kind : CreateRunInput → RunAdmissionKind
admission_kind input = kind_of input.replaces_run_id input.parent_run_id input.forked_from_run_id

abbrev id_eq : Option ℕ → Option ℕ → Bool
id_eq none none = true
id_eq none (some b) = false
id_eq (some a) none = false
id_eq (some a) (some b) = a == b

-- `input.managedSessionId !== undefined && input.managedSessionId !== parent.managed_session_id`.
abbrev differs_from_parent : Option ℕ → Option ℕ → Bool
differs_from_parent none inherited = false
differs_from_parent (some id) inherited = not (id_eq (some id) inherited)

-- The parent's session, for a child; else the session of the input.
unfoldable pub session_of : CreateRunInput → Option ℕ → Tx (Option ℕ)
session_of input none = pure input.managed_session_id
session_of input (some parent_id) = do
  found ← gets (λ db. row RunRow.id parent_id db.runs)
  parent ← or_throw found (message "parent run does not belong to the requested tenant")
  throw_if (not (parent.tenant_id == input.tenant_id))
      (message "parent run does not belong to the requested tenant")
  throw_if (differs_from_parent input.managed_session_id parent.managed_session_id)
      (message "child run managed session must match its parent")
  pure parent.managed_session_id

abbrev is_closed : ManagedSessionState → Bool
is_closed ManagedSessionState.cancelled = true
is_closed ManagedSessionState.archived = true
is_closed _ = false

abbrev is_idle : ManagedSessionState → Bool
is_idle ManagedSessionState.idle = true
is_idle _ = false

abbrev is_undefined : Option ℕ → Bool
is_undefined none = true
is_undefined (some _) = false

-- The checks on the session that the run is to belong to.
unfoldable pub check_session : CreateRunInput → Option ℕ → Tx (Unit {0})
check_session input none = pure tt
check_session input (some session_id) = do
  found ← gets (λ db. row ManagedSessionRow.id session_id db.sessions)
  session ← or_throw found (session_admission "managed session not found for tenant")
  throw_if (not (session.tenant_id == input.tenant_id))
      (session_admission "managed session not found for tenant")
  throw_if (is_closed session.state)
      (session_admission "managed session does not accept runs in its state")
  throw_if
      (is_undefined input.parent_run_id
        && (not (is_idle session.state) || is_undefined input.managed_session_id))
      (session_admission "managed session already has an active top-level run")

unfoldable pub check_version : CreateRunInput → Tx (Unit {0})
check_version input = do
  owner ← gets (λ db. db.agent_tenant input.agent_version_id)
  throw_if (not (id_eq owner (some input.tenant_id)))
      (agent_version_mismatch input.agent_version_id input.tenant_id)

-- The row of the INSERT.
unfoldable pub new_run : CreateRunInput → Option ℕ → Option ℕ → ℕ → RunRow
new_run input budget session now = record {
  id = input.run_id;
  tenant_id = input.tenant_id;
  managed_session_id = session;
  agent_version_id = input.agent_version_id;
  parent_run_id = input.parent_run_id;
  replaces_run_id = input.replaces_run_id;
  replacement_generation = coalesce input.replacement_generation 0;
  forked_from_run_id = input.forked_from_run_id;
  goal = input.goal;
  input = coalesce input.input [];
  status = created;
  status_reason = none;
  result = none;
  result_size_bytes = none;
  progress = coalesce input.progress [];
  workspace_id = none;
  current_attempt_id = none;
  last_event_seq = 0;
  max_steps = coalesce input.max_steps 50;
  token_budget = budget;
  tokens_used = 0;
  awaited_signal = none;
  awaited_signal_correlation_id = none;
  awaited_signal_schema = none;
  scheduled_for = input.scheduled_for;
  debug_fault_points = input.debug_fault_points;
  created_at = now;
  updated_at = now;
}

unfoldable pub insert_run : RunRow → Tx (Unit {0})
insert_run run = do
  taken ← gets (λ db. any (λ r. r.id == run.id) db.runs)
  throw_if taken duplicate_key
  modify (λ db. record db { runs = run ∷ db.runs })

abbrev occupy : ℕ → ℕ → ManagedSessionRow → ManagedSessionRow
occupy run_id now s = record s {
  state = ManagedSessionState.active;
  current_top_level_run_id = some run_id;
  version = s.version + 1;
  updated_at = now;
}

-- `if (managedSessionId && !input.parentRunId)`.
abbrev occupied : Option ℕ → Option ℕ → ℕ → Db → List ManagedSessionRow
occupied (some session_id) none run_id db =
    update_row ManagedSessionRow.id session_id (occupy run_id db.now) db.sessions
occupied (some session_id) (some parent) run_id db = db.sessions
occupied none parent run_id db = db.sessions

unfoldable pub occupy_session : CreateRunInput → Option ℕ → Db → Db
occupy_session input session db = record db {
  sessions = occupied session input.parent_run_id input.run_id db;
}

-- `g.resource ?? '*'`; 42 is `*`.
abbrev new_grant : ℕ → ℕ → GrantInput → CapabilityGrantRow
new_grant run_id now g = record {
  id = g.id;
  run_id = run_id;
  action_pattern = g.action;
  resource_pattern = coalesce g.resource (42 ∷ []);
  requires_approval = coalesce g.requires_approval false;
  max_calls = g.max_calls;
  calls_used = 0;
  expires_at = g.expires_at;
  created_at = now;
}

abbrev add_grants : ℕ → ℕ → List GrantInput → List CapabilityGrantRow → List CapabilityGrantRow
add_grants run_id now [] rows = rows
add_grants run_id now (g ∷ gs) rows = add_grants run_id now gs (new_grant run_id now g ∷ rows)

-- The workspace and the grants of the run.
unfoldable pub insert_resources : CreateRunInput → Db → Db
insert_resources input db = record db {
  workspaces = record { id = input.workspace_id; run_id = input.run_id } ∷ db.workspaces;
  grants = add_grants input.run_id db.now input.grants db.grants;
}

abbrev pub resolve_options : CreateRunInput → TransitionOptions
resolve_options input = record {
  expect_from = created ∷ [];
  to = resolving;
  type = run_created;
  payload = ("goal", str input.goal) ∷ ("agentVersionId", num input.agent_version_id) ∷ [];
  attempt_id = none;
  reason = none;
  patch = record no_patch { workspace_id = some input.workspace_id };
}

abbrev pub queue_options : TransitionOptions
queue_options = record {
  expect_from = resolving ∷ [];
  to = queued;
  type = run_queued;
  payload = [];
  attempt_id = none;
  reason = none;
  patch = no_patch;
}

-- The two transitions at the end.
unfoldable pub queue_run : CreateRunInput → Tx RunRow
queue_run input = do
  _ ← transition_run input.run_id (resolve_options input)
  transition_run input.run_id queue_options

-- The writes, once the checks have passed.
unfoldable pub write_run : CreateRunInput → AdmissionCapacity → Option ℕ → Tx RunRow
write_run input capacity session = do
  db ← gets (λ db. db)
  insert_run (new_run input capacity.effective_token_budget session db.now)
  modify (occupy_session input session)
  record_run_admission input.run_id input.tenant_id (admission_kind input) capacity.reserved_tokens
  modify (insert_resources input)
  queue_run input

unfoldable pub create_run : CreateRunInput → Tx RunRow
create_run input = do
  capacity ← prepare_run_admission input.tenant_id input.token_budget
  session ← session_of input input.parent_run_id
  check_session input session
  check_version input
  write_run input capacity session

abbrev is_visible : Option ℕ → RunRow → Bool
is_visible none r = true
is_visible (some tenant_id) r = r.tenant_id == tenant_id

-- With a tenant, a run of another tenant is not found.
unfoldable pub get_run : ℕ → Option ℕ → Db → Option RunRow
get_run id tenant_id db =
    managed_agents_runtime.Prelude.find (λ r. (r.id == id) && is_visible tenant_id r) db.runs
