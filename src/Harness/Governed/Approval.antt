-- ===== src/Harness/Governed/Approval.antt =====
-- The middle of `executeGovernedActionFenced` in src/harness/governedAction.ts: a person's approval
-- and the credential. The receipt of an earlier execution is pending where there is one.
use Prim.Native.String.{◌++◌}
use managed_agents_runtime.Prelude.{
  ℕ, String, Bool, false, List, ◌∷◌, [], Option, none, some, if◌then◌else◌, ◌==◌,
}
use managed_agents_runtime.Json.{bool, str}
use managed_agents_runtime.Core.Types.{tool_invocation_failed}
use managed_agents_runtime.Store.Rows.{
  CapabilityGrantRow, ApprovalStatus, ApprovalRow, ToolReceiptRow,
}
use managed_agents_runtime.Store.Database.{Result, ok, err, message}
use managed_agents_runtime.Store.Approvals.{list_approvals}
use managed_agents_runtime.Harness.Governed.{
  denied, Fx, done, return, throw, ◌>>=◌, ◌>>◌, in_tx, query, look, World, GovernedActionSpec,
  GovernedActionContext,
}
use managed_agents_runtime.Harness.Governed.Audit.{approval, log, lock_approval}
use managed_agents_runtime.Harness.Governed.Recovery.{end_denied, request_fresh_approval}
use managed_agents_runtime.Harness.Governed.Authority.{deny}

abbrev receipt_id : Option ToolReceiptRow → Option ℕ
receipt_id none = none
receipt_id (some r) = some r.id

-- `if (pendingRecovery && existing)` a fresh approval is asked for, else the action is denied.
unfoldable pub renew_or_deny :
    {A : Type 0}
    → GovernedActionContext
    → GovernedActionSpec
    → ℕ
    → Option ToolReceiptRow
    → String
    → Fx A
renew_or_deny ctx spec key (some existing) reason =
    request_fresh_approval ctx spec key (some existing.id)
renew_or_deny ctx spec key none reason = end_denied ctx spec reason approval

abbrev pub person : Option String → String
person none = "a human"
person (some name) = name

unfoldable pub judge_approval :
    GovernedActionContext
    → GovernedActionSpec
    → ℕ
    → Option ToolReceiptRow
    → Bool
    → ApprovalRow
    → ApprovalStatus
    → Fx (Unit {0})
judge_approval ctx spec key existing absent row ApprovalStatus.approved = done tt
judge_approval ctx spec key existing absent row ApprovalStatus.denied =
    deny ctx spec existing absent (spec.action ++ " was denied by " ++ person row.decision_by)
      approval
judge_approval ctx spec key existing absent row ApprovalStatus.expired =
    renew_or_deny ctx spec key existing ("approval expired for " ++ spec.action)
judge_approval ctx spec key existing absent row ApprovalStatus.pending =
    return (denied "approval still pending")

unfoldable pub judge_locked :
    GovernedActionContext
    → GovernedActionSpec
    → ℕ
    → Option ToolReceiptRow
    → Bool
    → Option ApprovalRow
    → Fx (Unit {0})
unfolding judge_approval
judge_locked ctx spec key existing absent none =
    renew_or_deny ctx spec key existing ("approval no longer authorizes " ++ spec.action)
judge_locked ctx spec key existing absent (some row) =
    judge_approval ctx spec key existing absent row row.status

-- The approval with this id must authorize the action.
unfoldable pub check_approval :
    GovernedActionContext
    → GovernedActionSpec
    → ℕ
    → Option ToolReceiptRow
    → Bool
    → ℕ
    → Fx (Option ℕ)
unfolding judge_locked
check_approval ctx spec key existing absent id = do
  row ← in_tx (lock_approval ctx spec key id)
  judge_locked ctx spec key existing absent row
  done (some id)

-- `approvals.findLast(…)`.
abbrev pub find_last : ℕ → List ApprovalRow → Option ApprovalRow
find_last key [] = none
find_last key (a ∷ rest) =
    let later = find_last key rest in
    elim later [ some b ↦ some b | none ↦ if a.idem_key == key then some a else none ]

unfoldable pub check_found :
    GovernedActionContext
    → GovernedActionSpec
    → ℕ
    → Option ToolReceiptRow
    → Bool
    → Option ApprovalRow
    → Fx (Option ℕ)
unfolding check_approval
check_found ctx spec key existing absent none =
    request_fresh_approval ctx spec key (receipt_id existing)
check_found ctx spec key existing absent (some row) =
    check_approval ctx spec key existing absent row.id

unfoldable pub require_approval :
    GovernedActionContext
    → GovernedActionSpec
    → ℕ
    → Option ToolReceiptRow
    → Bool
    → Option ℕ
    → Fx (Option ℕ)
unfolding check_found check_approval
require_approval ctx spec key existing absent (some id) =
    check_approval ctx spec key existing absent id
require_approval ctx spec key existing absent none = do
  approvals ← query (list_approvals ctx.run.id none)
  check_found ctx spec key existing absent (find_last key approvals)

abbrev pub needs_approval : Option CapabilityGrantRow → Bool
needs_approval none = false
needs_approval (some g) = g.requires_approval

-- `existing?.approval_id ?? null`.
abbrev pub stored_approval : Option ToolReceiptRow → Option ℕ
stored_approval none = none
stored_approval (some r) = r.approval_id

unfoldable pub approve_action :
    GovernedActionContext
    → GovernedActionSpec
    → ℕ
    → Option ToolReceiptRow
    → Bool
    → Option CapabilityGrantRow
    → Fx (Option ℕ)
unfolding require_approval
approve_action ctx spec key existing absent usable =
    if needs_approval usable
    then require_approval ctx spec key existing absent (stored_approval existing)
    else done (stored_approval existing)

unfoldable pub use_credential :
    GovernedActionContext → GovernedActionSpec → Result (Option ℕ) → Fx (Option ℕ)
use_credential ctx spec (ok credential) = done credential
use_credential ctx spec (err e) = do
  _ ← in_tx (
      log ctx spec tool_invocation_failed
        (("stage", str "credential") ∷ ("reconciliationRequired", bool false) ∷ []))
  throw (message ("credential resolution failed for " ++ spec.action))

unfoldable pub resolve_with :
    GovernedActionContext
    → GovernedActionSpec
    → Option ℕ
    → Option (Option ℕ → World → Result (Option ℕ))
    → Fx (Option ℕ)
unfolding use_credential
resolve_with ctx spec approval_id none = done none
resolve_with ctx spec approval_id (some resolve) = do
  answer ← look (resolve approval_id)
  use_credential ctx spec answer

-- `ctx.credentials?.resolve(…)`.
unfoldable pub resolve_credential :
    GovernedActionContext → GovernedActionSpec → Option ℕ → Fx (Option ℕ)
unfolding resolve_with
resolve_credential ctx spec approval_id = resolve_with ctx spec approval_id ctx.credentials

-- `approval?.status !== 'APPROVED'`, once the credential is there.
unfoldable pub judge_again :
    GovernedActionContext
    → GovernedActionSpec
    → ℕ
    → Option ToolReceiptRow
    → Bool
    → Option ApprovalStatus
    → Fx (Unit {0})
judge_again ctx spec key existing absent (some ApprovalStatus.approved) = done tt
judge_again ctx spec key (some existing) absent (some ApprovalStatus.expired) =
    request_fresh_approval ctx spec key (some existing.id)
judge_again ctx spec key none absent (some ApprovalStatus.expired) =
    deny ctx spec none absent ("approval expired for " ++ spec.action) approval
judge_again ctx spec key existing absent status =
    deny ctx spec existing absent ("approval no longer authorizes " ++ spec.action) approval

abbrev pub status_of : Option ApprovalRow → Option ApprovalStatus
status_of none = none
status_of (some a) = some a.status

unfoldable pub recheck_approval :
    GovernedActionContext
    → GovernedActionSpec
    → ℕ
    → Option ToolReceiptRow
    → Bool
    → Option CapabilityGrantRow
    → Option ℕ
    → Fx (Unit {0})
unfolding judge_again
recheck_approval ctx spec key existing absent usable none = done tt
recheck_approval ctx spec key existing absent usable (some id) =
    if needs_approval usable
    then (do
      row ← in_tx (lock_approval ctx spec key id)
      judge_again ctx spec key existing absent (status_of row))
    else done tt
