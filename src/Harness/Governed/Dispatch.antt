-- ===== src/Harness/Governed/Dispatch.antt =====
-- The end of `executeGovernedActionFenced` in src/harness/governedAction.ts: the receipt, the last
-- checks before the call, the call, and the receipt's commit.
use Prim.Native.String.{◌++◌}
use managed_agents_runtime.Prelude.{
  ℕ, String, Bool, true, false, ◌∷◌, [], Option, none, some, if◌then◌else◌,
}
use managed_agents_runtime.Store.Rows.{
  CapabilityGrantRow, ApprovalStatus, ApprovalRow, ToolReceiptRow,
}
use managed_agents_runtime.Store.Database.{Result, ok, err}
use managed_agents_runtime.Transition.{is_none}
use managed_agents_runtime.Harness.Governed.{
  RecoveryPolicy, retry_with_idempotency, reconcile, GovernedResult, completed, Fx, done, return,
  throw, ◌>>=◌, ◌>>◌, try_tx, rethrow, in_tx, look, Dispatched, GovernedActionSpec,
  GovernedActionContext, assert_current_action_owner,
}
use managed_agents_runtime.Harness.Governed.Audit.{
  policy, approval, Stage, mark_reconciliation_required, audit_retryable_failure, lock_approval,
  revalidate_grant, start_invocation, commit_invocation,
}
use managed_agents_runtime.Harness.Governed.Recovery.{
  end_undispatched, end_denied, request_fresh_approval,
}
use managed_agents_runtime.Harness.Governed.Approval.{needs_approval, person}

-- `(pendingRecovery ? existing : null) ?? …`.
unfoldable pub open_receipt :
    GovernedActionContext
    → GovernedActionSpec
    → ℕ
    → Option ToolReceiptRow
    → Option CapabilityGrantRow
    → Option ℕ
    → Fx ToolReceiptRow
open_receipt ctx spec key (some existing) usable approval_id = done existing
open_receipt ctx spec key none usable approval_id =
    in_tx (start_invocation ctx spec key usable approval_id)

-- `fresh` is `receiptCreatedNow || priorOutcomeKnownAbsent`.
unfoldable pub deny_open :
    {A : Type 0}
    → GovernedActionContext
    → GovernedActionSpec
    → ToolReceiptRow
    → Bool
    → String
    → Stage
    → Fx A
deny_open ctx spec receipt fresh reason stage =
    if fresh
    then end_undispatched ctx spec receipt.id reason stage
    else end_denied ctx spec reason stage

unfoldable pub judge_grant :
    GovernedActionContext → GovernedActionSpec → ToolReceiptRow → Bool → Bool → Fx (Unit {0})
unfolding deny_open
judge_grant ctx spec receipt fresh true = done tt
judge_grant ctx spec receipt fresh false =
    deny_open ctx spec receipt fresh
      ("capability grant expired before dispatch for " ++ spec.action) policy

unfoldable pub check_grant :
    GovernedActionContext
    → GovernedActionSpec
    → ToolReceiptRow
    → Bool
    → Option CapabilityGrantRow
    → Fx (Unit {0})
unfolding judge_grant
check_grant ctx spec receipt fresh none = done tt
check_grant ctx spec receipt fresh (some g) = do
  still ← in_tx (revalidate_grant ctx spec g.id)
  judge_grant ctx spec receipt fresh still

unfoldable pub judge_status :
    GovernedActionContext
    → GovernedActionSpec
    → ℕ
    → ToolReceiptRow
    → Bool
    → ApprovalRow
    → ApprovalStatus
    → Fx (Unit {0})
unfolding deny_open
judge_status ctx spec key receipt fresh row ApprovalStatus.expired =
    request_fresh_approval ctx spec key (some receipt.id)
judge_status ctx spec key receipt fresh row ApprovalStatus.approved = done tt
judge_status ctx spec key receipt fresh row ApprovalStatus.denied =
    deny_open ctx spec receipt fresh (spec.action ++ " was denied by " ++ person row.decision_by)
      approval
judge_status ctx spec key receipt fresh row ApprovalStatus.pending =
    deny_open ctx spec receipt fresh ("approval no longer authorizes " ++ spec.action) approval

unfoldable pub judge_final :
    GovernedActionContext
    → GovernedActionSpec
    → ℕ
    → ToolReceiptRow
    → Bool
    → Option ApprovalRow
    → Fx (Unit {0})
unfolding judge_status deny_open
judge_final ctx spec key receipt fresh none =
    deny_open ctx spec receipt fresh ("approval no longer authorizes " ++ spec.action) approval
judge_final ctx spec key receipt fresh (some row) =
    judge_status ctx spec key receipt fresh row row.status

unfoldable pub check_final_approval :
    GovernedActionContext
    → GovernedActionSpec
    → ℕ
    → ToolReceiptRow
    → Bool
    → Option CapabilityGrantRow
    → Option ℕ
    → Fx (Unit {0})
unfolding judge_final
check_final_approval ctx spec key receipt fresh usable none = done tt
check_final_approval ctx spec key receipt fresh usable (some id) =
    if needs_approval usable
    then (do
      row ← in_tx (lock_approval ctx spec key id)
      judge_final ctx spec key receipt fresh row)
    else done tt

-- `spec.recovery === 'reconcile' && !spec.reconcile`.
abbrev pub is_manual : GovernedActionSpec → RecoveryPolicy → Bool
is_manual spec retry_with_idempotency = false
is_manual spec reconcile = is_none spec.reconcile

-- The `catch` blocks around the call and around its receipt's commit.
unfoldable pub record_failure :
    GovernedActionContext → GovernedActionSpec → ℕ → String → String → Fx ℕ
record_failure ctx spec receipt_id reason stage =
    if is_manual spec spec.recovery
    then in_tx (mark_reconciliation_required ctx spec receipt_id reason)
    else in_tx (audit_retryable_failure ctx spec receipt_id stage)

-- The request reaches the provider, whatever it answers.
unfoldable pub send : GovernedActionSpec → ℕ → Option ℕ → Fx (Result Dispatched)
send spec key credential w =
    let sent = record w {
      calls = record { key = key; credential = credential; at = w.db } ∷ w.calls;
    } in
    (managed_agents_runtime.Harness.Governed.next (spec.dispatch credential sent), sent)

unfoldable pub settle_commit :
    GovernedActionContext
    → GovernedActionSpec
    → ToolReceiptRow
    → Dispatched
    → Result ℕ
    → Fx GovernedResult
unfolding record_failure
settle_commit ctx spec receipt d (ok seq) = do
  hook ← look spec.after_commit
  rethrow hook
  done (completed (some d.value) false)
settle_commit ctx spec receipt d (err e) = do
  _ ←
      record_failure ctx spec receipt.id "local receipt commit failed after remote success"
        "receipt_commit"
  throw e

unfoldable pub settle_dispatch :
    GovernedActionContext
    → GovernedActionSpec
    → ToolReceiptRow
    → Result Dispatched
    → Fx GovernedResult
unfolding settle_commit record_failure
settle_dispatch ctx spec receipt (err e) = do
  _ ←
      record_failure ctx spec receipt.id "dispatch failed with an uncertain external outcome"
        "dispatch"
  throw e
settle_dispatch ctx spec receipt (ok d) = do
  hook ← look spec.after_dispatch
  rethrow hook
  committed ← try_tx (commit_invocation ctx spec receipt.id d [])
  settle_commit ctx spec receipt d committed

-- What is checked between the receipt and the call.
unfoldable pub last_checks :
    GovernedActionContext
    → GovernedActionSpec
    → ℕ
    → ToolReceiptRow
    → Bool
    → Option CapabilityGrantRow
    → Option ℕ
    → Fx (Unit {0})
unfolding check_grant check_final_approval
last_checks ctx spec key receipt fresh usable approval_id = do
  in_tx (assert_current_action_owner ctx)
  hook ← look spec.before_dispatch
  rethrow hook
  check_grant ctx spec receipt fresh usable
  check_final_approval ctx spec key receipt fresh usable approval_id
  in_tx (assert_current_action_owner ctx)

unfoldable pub dispatch_and_commit :
    GovernedActionContext → GovernedActionSpec → ℕ → ToolReceiptRow → Option ℕ → Fx GovernedResult
unfolding send settle_dispatch
dispatch_and_commit ctx spec key receipt credential = do
  answer ← send spec key credential
  settle_dispatch ctx spec receipt answer
