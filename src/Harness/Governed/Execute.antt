-- ===== src/Harness/Governed/Execute.antt =====
-- `executeGovernedAction` of src/harness/governedAction.ts. The advisory lock on the key makes the
-- executions with one key follow one another; the permits that bound how many wait for it are those
-- of the module Admission.
use managed_agents_runtime.Prelude.{
  ℕ, Bool, true, false, ◌||◌, List, Option, none, some, if◌then◌else◌,
}
use managed_agents_runtime.Store.Rows.{CapabilityGrantRow, ToolReceiptRow}
use managed_agents_runtime.Store.Database.{Db, Error, Result, ok, err, message}
use managed_agents_runtime.Store.Grants.{list_grants, head}
use managed_agents_runtime.Store.Receipts.{find_receipt_by_lineage_key, replacement_root_run_id}
use managed_agents_runtime.Transition.{is_none}
use managed_agents_runtime.Harness.Governed.{
  GovernedResult, Outcome, next, exit, thrown, World, Fx, done, throw, ◌>>=◌, ◌>>◌, in_tx, query,
  look, GovernedActionSpec, GovernedActionContext, reason_or, assert_current_action_owner,
}
use managed_agents_runtime.Harness.Governed.Recovery.{check_existing, recover}
use managed_agents_runtime.Harness.Governed.Authority.{
  declared_grants, usable_grants, validate_action, check_policy,
}
use managed_agents_runtime.Harness.Governed.Approval.{
  approve_action, resolve_credential, recheck_approval,
}
use managed_agents_runtime.Harness.Governed.Dispatch.{
  open_receipt, last_checks, dispatch_and_commit,
}

-- `pendingRecovery`, of a receipt that passed `check_existing`.
abbrev pub is_there : Option ToolReceiptRow → Bool
is_there none = false
is_there (some r) = true

abbrev read_grants : ℕ → Db → ℕ × List CapabilityGrantRow
read_grants run_id db = (db.now, list_grants run_id db)

-- From the grant that will be used on.
unfoldable pub execute_with_grant :
    GovernedActionContext
    → GovernedActionSpec
    → ℕ
    → Option ToolReceiptRow
    → Bool
    → Option CapabilityGrantRow
    → Fx GovernedResult
execute_with_grant ctx spec key existing absent usable = do
  check_policy ctx spec existing absent usable
  approval_id ← approve_action ctx spec key existing absent usable
  credential ← resolve_credential ctx spec approval_id
  recheck_approval ctx spec key existing absent usable approval_id
  receipt ← open_receipt ctx spec key existing usable approval_id
  last_checks ctx spec key receipt (is_none existing || absent) usable approval_id
  dispatch_and_commit ctx spec key receipt credential

-- From what the receipt of an earlier execution leaves to do.
unfoldable pub execute_recovered :
    GovernedActionContext
    → GovernedActionSpec
    → ℕ
    → Option ToolReceiptRow
    → Bool
    → Fx GovernedResult
unfolding execute_with_grant
execute_recovered ctx spec key existing absent = do
  snapshot ← query (read_grants ctx.run.id)
  let declared = declared_grants spec snapshot.1
  let usable = usable_grants spec snapshot.0 (is_there existing) declared
  validate_action ctx spec existing absent declared usable
  execute_with_grant ctx spec key existing absent (head usable)

-- From the receipt of an earlier execution, if there is one.
unfoldable pub execute_existing :
    GovernedActionContext → GovernedActionSpec → ℕ → Option ToolReceiptRow → Fx GovernedResult
unfolding execute_recovered
execute_existing ctx spec key existing = do
  check_existing existing
  absent ← recover ctx spec spec.recovery existing
  execute_recovered ctx spec key existing absent

unfoldable pub execute_governed_action_fenced :
    GovernedActionContext → GovernedActionSpec → ℕ → Fx GovernedResult
unfolding execute_existing
execute_governed_action_fenced ctx spec key = do
  in_tx (assert_current_action_owner ctx)
  existing ← query (find_receipt_by_lineage_key ctx.lineage_fuel ctx.run.id key)
  execute_existing ctx spec key existing

unfoldable pub check_aborted : Option Error → Bool → Fx (Unit {0})
check_aborted reason aborted =
    if aborted
    then throw (reason_or reason (message "governed action cancelled before execution"))
    else done tt

-- The body of the `try`, under the lock.
unfoldable pub execute_locked : GovernedActionContext → GovernedActionSpec → Fx GovernedResult
unfolding execute_governed_action_fenced check_aborted
execute_locked ctx spec = do
  root ← query (replacement_root_run_id ctx.lineage_fuel ctx.run.id)
  aborted ← look ctx.aborted
  check_aborted ctx.abort_reason aborted
  execute_governed_action_fenced ctx spec (ctx.idempotency_key root)

-- A return from the action is its result; so is the value at its end.
abbrev pub returned : Outcome GovernedResult × World → Result GovernedResult × World
returned (next r, w) = (ok r, w)
returned (exit r, w) = (ok r, w)
returned (thrown e, w) = (err e, w)

-- The result, or the error that the action ends with, and the world it leaves.
unfoldable pub execute_governed_action :
    GovernedActionContext → GovernedActionSpec → World → Result GovernedResult × World
unfolding execute_locked
execute_governed_action ctx spec w = returned (execute_locked ctx spec w)
