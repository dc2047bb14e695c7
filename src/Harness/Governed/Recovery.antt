-- ===== src/Harness/Governed/Recovery.antt =====
-- The start of `executeGovernedActionFenced` in src/harness/governedAction.ts: the receipt that an
-- earlier execution left, and what the provider knows of a pending one.
use managed_agents_runtime.Prelude.{
  ℕ, String, Bool, true, false, ◌∷◌, [], Option, none, some, if◌then◌else◌,
}
use managed_agents_runtime.Json.{bool}
use managed_agents_runtime.Store.Rows.{ReceiptStatus, pending, ToolReceiptRow}
use managed_agents_runtime.Store.Database.{Result, ok, err}
use managed_agents_runtime.Harness.Governed.{
  reason_or, RecoveryPolicy, retry_with_idempotency, reconcile, completed, suspend_approval, denied,
  reconciliation_required, Fx, done, return, throw, ◌>>=◌, in_tx, look, World, Reconciled,
  committed, not_found, unknown, GovernedActionSpec, GovernedActionContext,
}
use managed_agents_runtime.Harness.Governed.Audit.{
  Stage, audit_denial, mark_reconciliation_required, fail_undispatched_receipt, create_approval,
  commit_invocation,
}

-- The four ways in which the action ends early: `return markReconciliationRequired(…)`,
unfoldable pub end_uncertain :
    {A : Type 0} → GovernedActionContext → GovernedActionSpec → ℕ → String → Fx A
end_uncertain ctx spec receipt_id reason = do
  _ ← in_tx (mark_reconciliation_required ctx spec receipt_id reason)
  return (reconciliation_required reason)

-- `return failUndispatchedReceiptAndDeny(…)`,
unfoldable pub end_undispatched :
    {A : Type 0} → GovernedActionContext → GovernedActionSpec → ℕ → String → Stage → Fx A
end_undispatched ctx spec receipt_id reason stage = do
  _ ← in_tx (fail_undispatched_receipt ctx spec receipt_id reason stage)
  return (denied reason)

-- `await auditDenial(…); return { kind: 'denied', reason }`,
unfoldable pub end_denied :
    {A : Type 0} → GovernedActionContext → GovernedActionSpec → String → Stage → Fx A
end_denied ctx spec reason stage = do
  _ ← in_tx (audit_denial ctx spec reason stage)
  return (denied reason)

-- and `return requestFreshApproval(…)`.
unfoldable pub request_fresh_approval :
    {A : Type 0} → GovernedActionContext → GovernedActionSpec → ℕ → Option ℕ → Fx A
request_fresh_approval ctx spec key receipt_id = do
  row ← in_tx (create_approval ctx spec key receipt_id)
  return (suspend_approval row.id)

-- `prior action is ${existing.status.toLowerCase()}`, for a receipt that is settled.
abbrev prior_reason : ReceiptStatus → String
prior_reason ReceiptStatus.failed = "prior action is failed"
prior_reason ReceiptStatus.needs_reconciliation = "prior action is needs_reconciliation"
prior_reason ReceiptStatus.committed = "prior action is committed"
prior_reason pending = "prior action is pending"

-- A receipt that is settled ends the action: `deduplicated` if it is committed.
unfoldable pub check_status : ReceiptStatus → ToolReceiptRow → Fx (Unit {0})
check_status ReceiptStatus.committed existing = return (completed existing.result true)
check_status pending existing = done tt
check_status status existing = return (reconciliation_required (prior_reason status))

unfoldable pub check_existing : Option ToolReceiptRow → Fx (Unit {0})
unfolding check_status
check_existing none = done tt
check_existing (some existing) = check_status existing.status existing

-- What follows the provider's answer; `true` is `priorOutcomeKnownAbsent`.
unfoldable pub settle_reconciled :
    GovernedActionContext → GovernedActionSpec → ToolReceiptRow → Bool → Result Reconciled → Fx Bool
unfolding end_uncertain
settle_reconciled ctx spec existing aborted (err e) =
    if aborted
    then throw (reason_or ctx.abort_reason e)
    else end_uncertain ctx spec existing.id "provider reconciliation failed"
settle_reconciled ctx spec existing aborted (ok (committed d)) = do
  _ ← in_tx (commit_invocation ctx spec existing.id d (("reconciled", bool true) ∷ []))
  return (completed (some d.value) true)
settle_reconciled ctx spec existing aborted (ok unknown) =
    end_uncertain ctx spec existing.id "provider could not reconcile prior action outcome"
settle_reconciled ctx spec existing aborted (ok not_found) = done true

unfoldable pub reconcile_pending :
    GovernedActionContext
    → GovernedActionSpec
    → ToolReceiptRow
    → Option (World → Result Reconciled)
    → Fx Bool
unfolding settle_reconciled end_uncertain
reconcile_pending ctx spec existing none =
    end_uncertain ctx spec existing.id "prior action outcome requires manual reconciliation"
reconcile_pending ctx spec existing (some ask) = do
  answer ← look ask
  aborted ← look ctx.aborted
  settle_reconciled ctx spec existing aborted answer

-- Once `check_existing` has passed, a receipt that is there is pending.
unfoldable pub recover :
    GovernedActionContext → GovernedActionSpec → RecoveryPolicy → Option ToolReceiptRow → Fx Bool
unfolding reconcile_pending
recover ctx spec retry_with_idempotency existing = done false
recover ctx spec reconcile none = done false
recover ctx spec reconcile (some existing) = reconcile_pending ctx spec existing spec.reconcile
