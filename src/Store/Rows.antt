-- ===== src/Store/Rows.antt =====
-- The rows of src/store: tenants, admissions, managed sessions, grants, approvals, receipts and the
-- outbox. A column that may be NULL is an option. What a digest names is the number that stands for
-- it; an idempotency key is compared for equality only.
use managed_agents_runtime.Prelude.{ℕ, String, Bool, true, false, Option, ◌==◌, List, [], ◌∷◌, ◌&&◌}
use managed_agents_runtime.Json.{Payload}
use managed_agents_runtime.Core.Types.{EventType}

-- A string as its UTF-16 code units, where the code reads its characters.
abbrev pub Text : Type 0
Text = List ℕ

abbrev pub text_eq : Text → Text → Bool
text_eq [] [] = true
text_eq [] (d ∷ ds) = false
text_eq (c ∷ cs) [] = false
text_eq (c ∷ cs) (d ∷ ds) = (c == d) && text_eq cs ds

pub data TenantStatus : Type 0 where
  active suspended : TenantStatus

abbrev pub is_active_tenant : TenantStatus → Bool
is_active_tenant active = true
is_active_tenant suspended = false

pub record TenantRow : Type 0 where
  pub id : ℕ
  pub name : String
  pub status : TenantStatus
  pub max_concurrent_runs : Option ℕ
  pub daily_token_budget : Option ℕ
  pub created_at : ℕ

pub data RunAdmissionKind : Type 0 where
  direct fork delegated replacement : RunAdmissionKind

-- `active` is `status = 'active'`; the table allows 'active' and 'released' only.
pub record AdmissionRow : Type 0 where
  pub run_id : ℕ
  pub tenant_id : ℕ
  pub kind : RunAdmissionKind
  pub active : Bool
  pub reserved_tokens : ℕ
  pub released_at : Option ℕ
  pub release_reason : Option String

pub data ManagedSessionState : Type 0 where
  idle active waiting requires_action cancelled archived : ManagedSessionState

abbrev pub session_state_no : ManagedSessionState → ℕ
session_state_no idle = 0
session_state_no ManagedSessionState.active = 1
session_state_no waiting = 2
session_state_no requires_action = 3
session_state_no cancelled = 4
session_state_no archived = 5

abbrev pub session_state_eq : ManagedSessionState → ManagedSessionState → Bool
session_state_eq s t = session_state_no s == session_state_no t

pub record ManagedSessionRow : Type 0 where
  pub id : ℕ
  pub tenant_id : ℕ
  pub principal_id : ℕ
  pub agent_version_id : ℕ
  pub objective : String
  pub correlation_ref : Option String
  pub state : ManagedSessionState
  pub version : ℕ
  pub policy : Payload
  pub credential_grant_refs : List String
  pub current_top_level_run_id : Option ℕ
  pub created_at : ℕ
  pub updated_at : ℕ

pub record CapabilityGrantRow : Type 0 where
  pub id : ℕ
  pub run_id : ℕ
  pub action_pattern : Text
  pub resource_pattern : Text
  pub requires_approval : Bool
  pub max_calls : Option ℕ
  pub calls_used : ℕ
  pub expires_at : Option ℕ
  pub created_at : ℕ

pub data ApprovalStatus : Type 0 where
  pending approved denied expired : ApprovalStatus

-- The columns of `approvals.action` that the code reads are fields: the action, the resource and the
-- `__idemKey` of its arguments.
pub record ApprovalRow : Type 0 where
  pub id : ℕ
  pub run_id : ℕ
  pub requested_by_attempt_id : Option ℕ
  pub action : Text
  pub resource : Text
  pub idem_key : ℕ
  pub status : ApprovalStatus
  pub decision_by : Option String
  pub decided_at : Option ℕ
  pub expires_at : Option ℕ
  pub created_at : ℕ

pub data ReceiptStatus : Type 0 where
  pending committed failed needs_reconciliation : ReceiptStatus

pub record ToolReceiptRow : Type 0 where
  pub id : ℕ
  pub run_id : ℕ
  pub attempt_id : ℕ
  pub step : ℕ
  pub semantic_action : String
  pub request_digest : ℕ
  pub idempotency_key : ℕ
  pub approval_id : Option ℕ
  pub status : ReceiptStatus
  pub external_txn_id : Option String
  pub result_digest : Option ℕ
  pub result : Option Payload
  pub reversibility : String
  pub started_at : ℕ
  pub completed_at : Option ℕ

-- `key`, `seq` and `type` are those of the payload `{ runId, seq, type, ...payload }`.
pub record OutboxRow : Type 0 where
  pub id : ℕ
  pub topic : String
  pub key : ℕ
  pub seq : ℕ
  pub type : EventType
  pub payload : Payload
  pub created_at : ℕ
  pub published_at : Option ℕ

pub record WorkspaceRow : Type 0 where
  pub id : ℕ
  pub run_id : ℕ
