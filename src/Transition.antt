-- ===== src/Transition.antt =====
-- src/core/transition.ts: `transitionRun`, the single choke point for changes of a run's status, and
-- `appendEvent`. The advisory lock that a terminal transition waits for has no effect on the rows. The
-- primary key of run_events and the CHECK constraints on the result, which may refuse a write, are not
-- modelled; nor is a payload with a key runId, seq or type, which would take the place of the column's
-- value in the outbox.
pub mod Frame
pub mod Ledger
pub mod Status
pub mod Admission
pub mod Session
use managed_agents_runtime.Prelude.{
  ℕ, suc, ◌+◌, String, Bool, true, false, not, ◌&&◌, ◌||◌, List, ◌∷◌, [], ◌++◌, Option, none, some,
  if◌then◌else◌, ◌==◌, length, row, update_row, update_where,
}
use managed_agents_runtime.Json.{Json, str, Payload, spread}
use managed_agents_runtime.Core.Types.{
  RunStatus, waiting_approval, waiting_signal, waiting_children, sleeping, suspended, status_name,
  RunRow, EventType, RunEventRow,
}
use managed_agents_runtime.Core.StateMachine.{includes, is_transition_allowed, is_terminal}
use managed_agents_runtime.Store.Rows.{
  ManagedSessionState, ManagedSessionRow, session_state_eq, OutboxRow,
}
use managed_agents_runtime.Store.Admissions.{release_run_admission}
use managed_agents_runtime.Store.Database.{
  Db, Tx, pure, ◌>>=◌, ◌>>◌, gets, throw_if, or_throw, run_not_found, unexpected_status,
  invalid_transition, Result, ok,
}

-- The columns that a caller may patch: `none` is a key that is absent. Of those that can be set to
-- NULL the inner option is the value.
pub record Patch : Type 0 where
  pub workspace_id : Option ℕ
  pub current_attempt_id : Option (Option ℕ)
  pub progress : Option Payload
  pub tokens_used : Option ℕ
  pub awaited_signal : Option (Option String)
  pub awaited_signal_correlation_id : Option (Option String)
  pub awaited_signal_schema : Option (Option Json)
  pub result : Option (Option Json)
  pub result_size_bytes : Option (Option ℕ)

abbrev pub no_patch : Patch
no_patch = record {
  workspace_id = none;
  current_attempt_id = none;
  progress = none;
  tokens_used = none;
  awaited_signal = none;
  awaited_signal_correlation_id = none;
  awaited_signal_schema = none;
  result = none;
  result_size_bytes = none;
}

pub record TransitionOptions : Type 0 where
  pub expect_from : List RunStatus
  pub to : RunStatus
  pub type : EventType
  pub payload : Payload
  pub attempt_id : Option ℕ
  pub reason : Option String
  pub patch : Patch

unfoldable pub lock_run : ℕ → Tx RunRow
lock_run run_id = do
  run ← gets (λ db. row RunRow.id run_id db.runs)
  or_throw run (run_not_found run_id)

-- The two INSERTs. An outbox id is a sequence value; only its order counts.
unfoldable pub insert_event : ℕ → ℕ → EventType → Payload → Option ℕ → Db → Db
insert_event run_id seq type payload attempt_id db = record db {
  events =
      db.events
      ++ record {
        run_id = run_id;
        seq = seq;
        type = type;
        payload = payload;
        attempt_id = attempt_id;
        created_at = db.now;
      }
        ∷ [];
  outbox =
      db.outbox
      ++ record {
        id = suc (length db.outbox);
        topic = "run_events";
        key = run_id;
        seq = seq;
        type = type;
        payload = payload;
        created_at = db.now;
        published_at = none;
      }
        ∷ [];
}

-- `CASE WHEN in_patch THEN value ELSE column END`, and `COALESCE(value, column)`.
abbrev pub coalesce {ℓ} : {A : Type ℓ} → Option A → A → A
coalesce none old = old
coalesce (some new) old = new

-- `COALESCE` where the column itself may be NULL.
abbrev pub coalesce_null {ℓ} : {A : Type ℓ} → Option A → Option A → Option A
coalesce_null none old = old
coalesce_null (some new) old = some new

abbrev pub is_none {ℓ} : {A : Type ℓ} → Option A → Bool
is_none none = true
is_none (some _) = false

-- The session state that a top-level run's status shows as.
abbrev pub project_state : RunStatus → ManagedSessionState
project_state waiting_approval = ManagedSessionState.requires_action
project_state waiting_signal = ManagedSessionState.waiting
project_state waiting_children = ManagedSessionState.waiting
project_state sleeping = ManagedSessionState.waiting
project_state suspended = ManagedSessionState.waiting
project_state status =
    if is_terminal status then ManagedSessionState.idle else ManagedSessionState.active

abbrev is_current : ℕ → Option ℕ → Bool
is_current run_id none = false
is_current run_id (some current) = current == run_id

-- `state NOT IN ('CANCELLED', 'ARCHIVED')`.
abbrev pub is_open : ManagedSessionState → Bool
is_open ManagedSessionState.cancelled = false
is_open ManagedSessionState.archived = false
is_open _ = true

-- The WHERE clause of the projection, with `clearCurrentRun`.
unfoldable pub is_projected : ℕ → ℕ → ManagedSessionState → Bool → ManagedSessionRow → Bool
is_projected session_id run_id state clear s =
    s.id == session_id
    && is_current run_id s.current_top_level_run_id
    && is_open s.state
    && (not (session_state_eq s.state state) || (clear && not (is_none s.current_top_level_run_id)))

-- The rows that the UPDATE of the projection leaves.
unfoldable pub project_session : ℕ → RunRow → RunStatus → Db → List ManagedSessionRow
unfolding is_projected
project_session session_id run status db =
    update_where (is_projected session_id run.id (project_state status) (is_terminal status))
      (λ s. record s {
        state = project_state status;
        current_top_level_run_id = if is_terminal status then none else s.current_top_level_run_id;
        version = s.version + 1;
        updated_at = db.now;
      })
      db.sessions

-- A run with no session, or with a parent, is not projected.
unfoldable pub project_of : Option ℕ → Option ℕ → RunRow → RunStatus → Db → List ManagedSessionRow
unfolding project_session
project_of (some session_id) none run status db = project_session session_id run status db
project_of (some session_id) (some parent) run status db = db.sessions
project_of none parent run status db = db.sessions

unfoldable pub project_top_level_run_state_to_session : RunRow → RunStatus → Db → Db
unfolding project_of
project_top_level_run_state_to_session run status db = record db {
  sessions = project_of run.managed_session_id run.parent_run_id run status db;
}

-- The row that `UPDATE runs SET … RETURNING *` leaves.
unfoldable pub patched_run : TransitionOptions → ℕ → ℕ → RunRow → RunRow
patched_run opts seq now run =
    let patch = opts.patch in
    record run {
      status = opts.to;
      status_reason = opts.reason;
      last_event_seq = seq;
      workspace_id = coalesce_null patch.workspace_id run.workspace_id;
      current_attempt_id = coalesce patch.current_attempt_id run.current_attempt_id;
      progress = coalesce patch.progress run.progress;
      tokens_used = coalesce patch.tokens_used run.tokens_used;
      awaited_signal = coalesce patch.awaited_signal run.awaited_signal;
      result = coalesce patch.result run.result;
      result_size_bytes = coalesce patch.result_size_bytes run.result_size_bytes;
      awaited_signal_correlation_id =
          coalesce patch.awaited_signal_correlation_id run.awaited_signal_correlation_id;
      awaited_signal_schema = coalesce patch.awaited_signal_schema run.awaited_signal_schema;
      updated_at = now;
    }

unfoldable pub update_run : ℕ → (RunRow → RunRow) → Db → Db
update_run run_id f db = record db { runs = update_row RunRow.id run_id f db.runs }

-- `run_completed`, `run_failed`, `run_cancelled`: the template `run_${to.toLowerCase()}`.
abbrev release_reason : RunStatus → String
release_reason RunStatus.completed = "run_completed"
release_reason RunStatus.failed = "run_failed"
release_reason _ = "run_cancelled"

-- `if (isTerminal(opts.to)) await releaseRunAdmission(…)`.
release_if : Bool → ℕ → RunStatus → Db → Db
release_if ends run_id to db = record db {
  admissions =
      if ends
      then (release_run_admission run_id (release_reason to) db).admissions
      else db.admissions;
}

-- `{ from: run.status, to: opts.to, ...opts.event.payload }`.
transition_payload : RunStatus → TransitionOptions → Payload
unfolding spread status_name
transition_payload from opts =
    spread (("from", str (status_name from)) ∷ ("to", str (status_name opts.to)) ∷ []) opts.payload

-- What `transitionRun` writes once its checks have passed.
unfoldable pub write_transition : RunRow → TransitionOptions → Db → Db
unfolding insert_event update_run patched_run project_top_level_run_state_to_session
    transition_payload release_if
write_transition run opts db =
    let seq = run.last_event_seq + 1 in
    let logged =
      insert_event run.id seq opts.type (transition_payload run.status opts) opts.attempt_id db in
    let updated = update_run run.id (patched_run opts seq db.now) logged in
    let released = release_if (is_terminal opts.to) run.id opts.to updated in
    project_top_level_run_state_to_session run opts.to released

unfoldable pub transition_run : ℕ → TransitionOptions → Tx RunRow
unfolding lock_run
transition_run run_id opts = do
  run ← lock_run run_id
  throw_if (not (includes opts.expect_from run.status))
      (unexpected_status run_id run.status opts.expect_from)
  throw_if (not (is_transition_allowed run.status opts.to))
      (invalid_transition run_id run.status opts.to)
  db ← gets (λ db. db)
  λ _. ok (patched_run opts (run.last_event_seq + 1) db.now run, write_transition run opts db)

-- The columns that `appendEvent` patches.
unfoldable pub appended_run : Patch → ℕ → ℕ → RunRow → RunRow
appended_run patch seq now run = record run {
  last_event_seq = seq;
  progress = coalesce patch.progress run.progress;
  tokens_used = coalesce patch.tokens_used run.tokens_used;
  workspace_id = coalesce_null patch.workspace_id run.workspace_id;
  updated_at = now;
}

unfoldable pub write_event : RunRow → EventType → Payload → Option ℕ → Patch → Db → Db
unfolding insert_event update_run appended_run
write_event run type payload attempt_id patch db =
    let seq = run.last_event_seq + 1 in
    update_run run.id (appended_run patch seq db.now)
      (insert_event run.id seq type payload attempt_id db)

unfoldable pub append_event : ℕ → EventType → Payload → Option ℕ → Patch → Tx ℕ
unfolding lock_run
append_event run_id type payload attempt_id patch = do
  run ← lock_run run_id
  db ← gets (λ db. db)
  λ _. ok (run.last_event_seq + 1, write_event run type payload attempt_id patch db)
