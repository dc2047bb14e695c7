-- ===== src/Harness/Governed/Audit.antt =====
-- The transactions of src/harness/governedAction.ts that record how an action ended, and those that
-- open and commit its receipt.
use Prim.Native.String.{◌++◌}
use managed_agents_runtime.Prelude.{ℕ, String, Bool, true, false, ◌∷◌, [], Option, none, some}
use managed_agents_runtime.Json.{Payload, bool, str, num, spread}
use managed_agents_runtime.Core.Types.{
  running, waiting_approval, EventType, action_denied, approval_requested, tool_invocation_started,
  tool_invocation_committed, tool_invocation_failed,
}
use managed_agents_runtime.Store.Rows.{CapabilityGrantRow, ApprovalRow, ToolReceiptRow}
use managed_agents_runtime.Store.Database.{Tx, ◌>>=◌, ◌>>◌, gets, modify, pure, throw, message}
use managed_agents_runtime.Store.Approvals.{insert_approval, lock_approval_for_execution}
use managed_agents_runtime.Store.Grants.{
  GrantDecision, allowed, authorize_and_consume, revalidate_grant_for_dispatch,
}
use managed_agents_runtime.Store.Receipts.{
  fail, reconcile, insert_pending_receipt, commit_receipt, set_pending_receipt_approval,
  fail_receipt,
}
use managed_agents_runtime.Transition.{TransitionOptions, no_patch, transition_run, append_event}
use managed_agents_runtime.Harness.Governed.{
  ActionClassification, read, mutation, Dispatched, GovernedActionSpec, GovernedActionContext,
  codes, assert_current_action_owner,
}

abbrev classification_name : ActionClassification → String
classification_name read = "read"
classification_name mutation = "mutation"

unfoldable pub action_audit : GovernedActionSpec → Payload
action_audit spec =
    ("connector", str spec.connector)
    ∷ ("action", str spec.action)
    ∷ ("resource", str spec.resource)
    ∷ ("classification", str (classification_name spec.classification))
    ∷ []

-- `appendEvent` with the payload `{ ...spec.audit, ...fields, ...actionAudit(spec) }`.
unfoldable pub log : GovernedActionContext → GovernedActionSpec → EventType → Payload → Tx ℕ
unfolding action_audit
log ctx spec type fields =
    append_event ctx.run.id type (spread (spread spec.audit fields) (action_audit spec))
      (some ctx.attempt.id) no_patch

pub data Stage : Type 0 where
  validation policy approval : Stage

abbrev stage_name : Stage → String
stage_name validation = "validation"
stage_name policy = "policy"
stage_name approval = "approval"

unfoldable pub audit_denial : GovernedActionContext → GovernedActionSpec → String → Stage → Tx ℕ
unfolding log
audit_denial ctx spec reason stage =
    log ctx spec action_denied (("stage", str (stage_name stage)) ∷ ("reason", str reason) ∷ [])

unfoldable pub mark_reconciliation_required :
    GovernedActionContext → GovernedActionSpec → ℕ → String → Tx ℕ
unfolding log
mark_reconciliation_required ctx spec receipt_id reason = do
  assert_current_action_owner ctx
  modify (fail_receipt receipt_id reconcile)
  log ctx spec tool_invocation_failed (
      ("receiptId", num receipt_id)
      ∷ ("reason", str reason)
      ∷ ("reconciliationRequired", bool true)
      ∷ [])

unfoldable pub audit_retryable_failure :
    GovernedActionContext → GovernedActionSpec → ℕ → String → Tx ℕ
unfolding log
audit_retryable_failure ctx spec receipt_id stage = log ctx spec tool_invocation_failed (
    ("receiptId", num receipt_id)
    ∷ ("stage", str stage)
    ∷ ("retryable", bool true)
    ∷ ("reconciliationRequired", bool false)
    ∷ [])

unfoldable pub fail_undispatched_receipt :
    GovernedActionContext → GovernedActionSpec → ℕ → String → Stage → Tx ℕ
unfolding log
fail_undispatched_receipt ctx spec receipt_id reason stage = do
  assert_current_action_owner ctx
  modify (fail_receipt receipt_id fail)
  log ctx spec action_denied (("stage", str (stage_name stage)) ∷ ("reason", str reason) ∷ [])

abbrev waiting_options : GovernedActionContext → GovernedActionSpec → ℕ → TransitionOptions
waiting_options ctx spec approval_id = record {
  expect_from = running ∷ [];
  to = waiting_approval;
  type = approval_requested;
  payload =
      ("approvalId", num approval_id)
      ∷ ("action", str spec.action)
      ∷ ("resource", str spec.resource)
      ∷ [];
  attempt_id = some ctx.attempt.id;
  reason = none;
  patch = no_patch;
}

abbrev bind_approval : Option ℕ → ℕ → Tx (Unit {0})
bind_approval none approval_id = pure tt
bind_approval (some receipt_id) approval_id = set_pending_receipt_approval receipt_id approval_id

-- The new approval, for which the run waits; a receipt that is already there is bound to it.
unfoldable pub create_approval :
    GovernedActionContext → GovernedActionSpec → ℕ → Option ℕ → Tx ApprovalRow
create_approval ctx spec key receipt_id = do
  assert_current_action_owner ctx
  row ←
      insert_approval ctx.new_approval_id ctx.run.id ctx.attempt.id (codes spec.action)
        (codes spec.resource) key
  _ ← transition_run ctx.run.id (waiting_options ctx spec row.id)
  bind_approval receipt_id row.id
  pure row

unfoldable pub lock_approval :
    GovernedActionContext → GovernedActionSpec → ℕ → ℕ → Tx (Option ApprovalRow)
lock_approval ctx spec key approval_id db =
    lock_approval_for_execution db.now approval_id ctx.run.id (codes spec.action)
      (codes spec.resource) key db

unfoldable pub revalidate_grant : GovernedActionContext → GovernedActionSpec → ℕ → Tx Bool
revalidate_grant ctx spec grant_id = gets (λ db.
    revalidate_grant_for_dispatch db.now grant_id ctx.run.id (codes spec.action)
      (codes spec.resource) db)

abbrev require_allowed : GovernedActionSpec → GrantDecision → Tx (Unit {0})
require_allowed spec (allowed g needs) = pure tt
require_allowed spec GrantDecision.denied = throw (
    message (
      "capability disappeared: no capability grant matches " ++ spec.action ++ " on "
      ++ spec.resource))

unfoldable pub consume_grant :
    GovernedActionContext → GovernedActionSpec → Option CapabilityGrantRow → Tx (Unit {0})
consume_grant ctx spec none = pure tt
consume_grant ctx spec (some g) = do
  now ← gets (λ db. db.now)
  decision ←
      authorize_and_consume now ctx.run.id (codes spec.action) (codes spec.resource) (some g.id)
  require_allowed spec decision

abbrev reversibility_of : ActionClassification → String
reversibility_of read = "reversible"
reversibility_of mutation = "irreversible"

unfoldable pub start_invocation :
    GovernedActionContext
    → GovernedActionSpec
    → ℕ
    → Option CapabilityGrantRow
    → Option ℕ
    → Tx ToolReceiptRow
unfolding log consume_grant
start_invocation ctx spec key usable approval_id = do
  consume_grant ctx spec usable
  row ←
      insert_pending_receipt ctx.new_receipt_id ctx.run.id ctx.attempt.id ctx.step spec.action
        spec.args_digest key approval_id (some (reversibility_of spec.classification))
  _ ← log ctx spec tool_invocation_started (("receiptId", num row.id) ∷ [])
  pure row

-- The receipt's commit, `extra` being what the payload of the event has after the connector's audit.
unfoldable pub commit_invocation :
    GovernedActionContext → GovernedActionSpec → ℕ → Dispatched → Payload → Tx ℕ
unfolding action_audit
commit_invocation ctx spec receipt_id d extra = do
  assert_current_action_owner ctx
  commit_receipt receipt_id d.external_txn_id d.value (spec.digest d.value)
  append_event ctx.run.id tool_invocation_committed
      (spread (spread (spread spec.audit d.audit) (("receiptId", num receipt_id) ∷ extra))
        (action_audit spec))
      (some ctx.attempt.id) no_patch
