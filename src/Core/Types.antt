-- ===== src/Core/Types.antt =====
-- src/core/types.ts: the statuses, the event types and the rows of the run tables. An identifier is
-- an opaque text made by `newId` and only ever compared for equality, so it is a number here; a
-- time is a number of milliseconds; a BIGINT that pg hands over as text is the number it spells.
use managed_agents_runtime.Prelude.{
  ℕ, String, Bool, List, Option, ◌≡◌, refl, ap, true, false, zero, suc, ◌==◌, ==_iff, sym, ◌∙◌,
}
use managed_agents_runtime.Json.{Json, Payload}

pub data RunStatus : Type 0 where
  created resolving queued starting running waiting_approval waiting_signal waiting_children
        sleeping suspended retry_pending verifying completed failed cancelled :
      RunStatus

unfoldable pub status_name : RunStatus → String
status_name created = "CREATED"
status_name resolving = "RESOLVING"
status_name queued = "QUEUED"
status_name starting = "STARTING"
status_name running = "RUNNING"
status_name waiting_approval = "WAITING_APPROVAL"
status_name waiting_signal = "WAITING_SIGNAL"
status_name waiting_children = "WAITING_CHILDREN"
status_name sleeping = "SLEEPING"
status_name suspended = "SUSPENDED"
status_name retry_pending = "RETRY_PENDING"
status_name verifying = "VERIFYING"
status_name completed = "COMPLETED"
status_name failed = "FAILED"
status_name cancelled = "CANCELLED"

abbrev pub ordinal : RunStatus → ℕ
ordinal created = 0
ordinal resolving = 1
ordinal queued = 2
ordinal starting = 3
ordinal running = 4
ordinal waiting_approval = 5
ordinal waiting_signal = 6
ordinal waiting_children = 7
ordinal sleeping = 8
ordinal suspended = 9
ordinal retry_pending = 10
ordinal verifying = 11
ordinal completed = 12
ordinal failed = 13
ordinal cancelled = 14

-- `===` on statuses.
abbrev pub status_eq : RunStatus → RunStatus → Bool
status_eq s t = ordinal s == ordinal t

of_ordinal : ℕ → RunStatus
of_ordinal zero = created
of_ordinal (suc zero) = resolving
of_ordinal (suc (suc zero)) = queued
of_ordinal (suc (suc (suc zero))) = starting
of_ordinal (suc (suc (suc (suc zero)))) = running
of_ordinal (suc (suc (suc (suc (suc zero))))) = waiting_approval
of_ordinal (suc (suc (suc (suc (suc (suc zero)))))) = waiting_signal
of_ordinal (suc (suc (suc (suc (suc (suc (suc zero))))))) = waiting_children
of_ordinal (suc (suc (suc (suc (suc (suc (suc (suc zero)))))))) = sleeping
of_ordinal (suc (suc (suc (suc (suc (suc (suc (suc (suc zero))))))))) = suspended
of_ordinal (suc (suc (suc (suc (suc (suc (suc (suc (suc (suc zero)))))))))) = retry_pending
of_ordinal (suc (suc (suc (suc (suc (suc (suc (suc (suc (suc (suc zero))))))))))) = verifying
of_ordinal (suc (suc (suc (suc (suc (suc (suc (suc (suc (suc (suc (suc zero)))))))))))) = completed
of_ordinal (suc (suc (suc (suc (suc (suc (suc (suc (suc (suc (suc (suc (suc zero))))))))))))) =
    failed
of_ordinal _ = cancelled

of_ordinal-ordinal : (s : RunStatus) → of_ordinal (ordinal s) ≡ s
unfolding of_ordinal
of_ordinal-ordinal created = refl
of_ordinal-ordinal resolving = refl
of_ordinal-ordinal queued = refl
of_ordinal-ordinal starting = refl
of_ordinal-ordinal running = refl
of_ordinal-ordinal waiting_approval = refl
of_ordinal-ordinal waiting_signal = refl
of_ordinal-ordinal waiting_children = refl
of_ordinal-ordinal sleeping = refl
of_ordinal-ordinal suspended = refl
of_ordinal-ordinal retry_pending = refl
of_ordinal-ordinal verifying = refl
of_ordinal-ordinal completed = refl
of_ordinal-ordinal failed = refl
of_ordinal-ordinal cancelled = refl

pub status_eq_sound : (s t : RunStatus) → status_eq s t ≡ true → s ≡ t
status_eq_sound s t h =
    sym (of_ordinal-ordinal s) ∙ ap of_ordinal ((==_iff _ _).0 h) ∙ of_ordinal-ordinal t

pub data EventType : Type 0 where
  run_created agent_version_resolved capabilities_resolved run_queued : EventType
  attempt_started attempt_exited attempt_orphaned sandbox_allocated : EventType
  sandbox_terminated workspace_restored workspace_checkpointed context_compiled : EventType
  model_invocation_started model_invocation_completed action_proposed action_authorized : EventType
  action_denied tool_invoked tool_invocation_started tool_invocation_committed : EventType
  tool_invocation_failed progress_updated loop_detected stagnation_detected : EventType
  context_loss_detected semantic_recovery_applied model_escalated budget_plan_updated : EventType
  signal_received child_run_spawned child_run_replaced child_replacement_deferred : EventType
  children_resolved approval_requested approval_received approval_denied : EventType
  user_message_received retry_scheduled verification_started verification_passed : EventType
  verification_failed run_completed run_failed run_cancelled : EventType

unfoldable pub event_name : EventType → String
event_name run_created = "RunCreated"
event_name agent_version_resolved = "AgentVersionResolved"
event_name capabilities_resolved = "CapabilitiesResolved"
event_name run_queued = "RunQueued"
event_name attempt_started = "AttemptStarted"
event_name attempt_exited = "AttemptExited"
event_name attempt_orphaned = "AttemptOrphaned"
event_name sandbox_allocated = "SandboxAllocated"
event_name sandbox_terminated = "SandboxTerminated"
event_name workspace_restored = "WorkspaceRestored"
event_name workspace_checkpointed = "WorkspaceCheckpointed"
event_name context_compiled = "ContextCompiled"
event_name model_invocation_started = "ModelInvocationStarted"
event_name model_invocation_completed = "ModelInvocationCompleted"
event_name action_proposed = "ActionProposed"
event_name action_authorized = "ActionAuthorized"
event_name action_denied = "ActionDenied"
event_name tool_invoked = "ToolInvoked"
event_name tool_invocation_started = "ToolInvocationStarted"
event_name tool_invocation_committed = "ToolInvocationCommitted"
event_name tool_invocation_failed = "ToolInvocationFailed"
event_name progress_updated = "ProgressUpdated"
event_name loop_detected = "LoopDetected"
event_name stagnation_detected = "StagnationDetected"
event_name context_loss_detected = "ContextLossDetected"
event_name semantic_recovery_applied = "SemanticRecoveryApplied"
event_name model_escalated = "ModelEscalated"
event_name budget_plan_updated = "BudgetPlanUpdated"
event_name signal_received = "SignalReceived"
event_name child_run_spawned = "ChildRunSpawned"
event_name child_run_replaced = "ChildRunReplaced"
event_name child_replacement_deferred = "ChildReplacementDeferred"
event_name children_resolved = "ChildrenResolved"
event_name approval_requested = "ApprovalRequested"
event_name approval_received = "ApprovalReceived"
event_name approval_denied = "ApprovalDenied"
event_name user_message_received = "UserMessageReceived"
event_name retry_scheduled = "RetryScheduled"
event_name verification_started = "VerificationStarted"
event_name verification_passed = "VerificationPassed"
event_name verification_failed = "VerificationFailed"
event_name run_completed = "RunCompleted"
event_name run_failed = "RunFailed"
event_name run_cancelled = "RunCancelled"

pub record RunRow : Type 0 where
  pub id : ℕ
  pub tenant_id : ℕ
  pub managed_session_id : Option ℕ
  pub agent_version_id : ℕ
  pub parent_run_id : Option ℕ
  pub replaces_run_id : Option ℕ
  pub replacement_generation : ℕ
  pub forked_from_run_id : Option ℕ
  pub goal : String
  pub input : Payload
  pub status : RunStatus
  pub status_reason : Option String
  pub result : Option Json
  pub result_size_bytes : Option ℕ
  pub progress : Payload
  pub workspace_id : Option ℕ
  pub current_attempt_id : Option ℕ
  pub last_event_seq : ℕ
  pub max_steps : ℕ
  pub token_budget : Option ℕ
  pub tokens_used : ℕ
  pub awaited_signal : Option String
  pub awaited_signal_correlation_id : Option String
  pub awaited_signal_schema : Option Json
  pub scheduled_for : Option ℕ
  pub debug_fault_points : List String
  pub created_at : ℕ
  pub updated_at : ℕ

pub record RunEventRow : Type 0 where
  pub run_id : ℕ
  pub seq : ℕ
  pub type : EventType
  pub payload : Payload
  pub attempt_id : Option ℕ
  pub created_at : ℕ

pub data AttemptState : Type 0 where
  active exited orphaned : AttemptState

abbrev pub is_active : AttemptState → Bool
is_active active = true
is_active _ = false

pub record RunAttemptRow : Type 0 where
  pub id : ℕ
  pub run_id : ℕ
  pub attempt_no : ℕ
  pub worker_id : ℕ
  pub state : AttemptState
  pub lease_expires_at : ℕ
  pub heartbeat_at : ℕ
  pub sandbox_id : Option ℕ
  pub sandbox_domain : Option String
  pub started_from_checkpoint_id : Option ℕ
  pub exit_reason : Option String
  pub created_at : ℕ
