-- ===== src/Tests/Governed.antt =====
-- The theorems on governed actions at a run that writes a file under a grant that asks for an
-- approval.
use managed_agents_runtime.Prelude.{◌+◌, ◌≡◌, ◌⊎◌, refl, true, false, List, ◌∷◌, [], none, some}
use managed_agents_runtime.Json.{spread, assign}
use managed_agents_runtime.Store.Rows.{ToolReceiptRow, ReceiptStatus}
use managed_agents_runtime.Store.Database.{Db, ok, with_transaction}
use managed_agents_runtime.Store.Approvals.{
  expire_if_past, lock_approval_for_execution, list_approvals,
}
use managed_agents_runtime.Store.Grants.{
  list_grants, sort_by_created, is_matching, consume, consume_call, matching_grants,
  authorize_and_consume, revalidate_grant_for_dispatch,
}
use managed_agents_runtime.Store.Grants.Pattern.{split, skip_then, matches, pattern_matches}
use managed_agents_runtime.Store.Receipts.{
  insert_pending_receipt, update_open, commit_receipt, lineage, first_receipt,
  replacement_root_run_id, find_receipt_by_lineage_key,
}
use managed_agents_runtime.Transition.{
  lock_run, insert_event, update_run, appended_run, write_event, append_event,
}
use managed_agents_runtime.Harness.Governed.{
  mutation, retry_with_idempotency, reconcile, completed, World, next, done, return, throw, ◌>>=◌,
  arrive, try_tx, in_tx, query, look, Dispatched, GovernedActionSpec, GovernedActionContext,
  is_current_owner, assert_current_action_owner,
}
use managed_agents_runtime.Harness.Governed.Audit.{
  action_audit, log, lock_approval, revalidate_grant, consume_grant, start_invocation,
  commit_invocation,
}
use managed_agents_runtime.Harness.Governed.Recovery.{
  check_status, check_existing, settle_reconciled, reconcile_pending, recover,
}
use managed_agents_runtime.Harness.Governed.Authority.{
  declared_grants, usable_grants, judge_validation, ask_validation, validate_action, check_policy,
}
use managed_agents_runtime.Harness.Governed.Approval.{
  judge_approval, judge_locked, check_approval, check_found, require_approval, approve_action,
  resolve_with, resolve_credential, judge_again, recheck_approval,
}
use managed_agents_runtime.Harness.Governed.Dispatch.{
  open_receipt, judge_grant, check_grant, judge_status, judge_final, check_final_approval, send,
  settle_commit, settle_dispatch, last_checks, dispatch_and_commit,
}
use managed_agents_runtime.Harness.Governed.Execute.{
  execute_with_grant, execute_recovered, execute_existing, execute_governed_action_fenced,
  check_aborted, execute_locked, execute_governed_action,
}
use managed_agents_runtime.Harness.Governed.Cleared.{OwnsRun}
use managed_agents_runtime.Harness.Governed.Boundary.{
  IsRevalidated, IsApproved, last_checks-IsAuthorized,
}
use managed_agents_runtime.Harness.Governed.Once.{IsEffected, execute_governed_action-completed}
use managed_agents_runtime.Harness.Governed.Settled.{
  second_at, third_at, existing_at, execute_governed_action-deduplicates,
  execute_governed_action-manual,
}
use managed_agents_runtime.Tests.Data.{run_one, grant_one, live_attempt, receipt_one, db_zero}

abbrev answer : Dispatched
answer = record { value = []; external_txn_id = some "txn-9"; audit = [] }

abbrev write_file : GovernedActionSpec
write_file = record {
  connector = "fs";
  action = "fs.w";
  resource = "/a";
  args_digest = 66;
  classification = mutation;
  require_grant = true;
  prefer_exact_resource_grant = false;
  recovery = retry_with_idempotency;
  audit = [];
  validate = none;
  before_dispatch = λ w. ok tt;
  after_dispatch = λ w. ok tt;
  after_commit = λ w. ok tt;
  reconcile = none;
  dispatch = λ credential w. ok answer;
  digest = λ value. 5;
}

abbrev context : GovernedActionContext
context = record {
  run = run_one;
  attempt = live_attempt;
  step = 2;
  credentials = none;
  aborted = λ w. false;
  abort_reason = none;
  idempotency_key = λ root. 76 + root;
  lineage_fuel = 3;
  new_approval_id = 42;
  new_receipt_id = 52;
}

-- Another session passes time before the first query.
abbrev later : Db → Db
later db = record db { now = db.now + 7 }

abbrev world_with : List ToolReceiptRow → World
world_with receipts = record {
  db = record db_zero { receipts = receipts };
  others = later ∷ [];
  calls = [];
}

abbrev first_result : World
first_result = (execute_governed_action context write_file (world_with [])).1

completes :
    execute_governed_action context write_file (world_with [])
    ≡ (ok (completed (some []) false), first_result)
unfolding execute_governed_action execute_locked execute_governed_action_fenced execute_existing
    execute_recovered execute_with_grant check_aborted query look ◌>>=◌ in_tx try_tx
    with_transaction assert_current_action_owner is_current_owner done throw return arrive
    check_existing check_status recover reconcile_pending settle_reconciled declared_grants
    usable_grants validate_action ask_validation judge_validation check_policy approve_action
    require_approval check_approval check_found judge_locked judge_approval resolve_credential
    resolve_with recheck_approval judge_again open_receipt start_invocation consume_grant
    authorize_and_consume matching_grants list_grants sort_by_created is_matching consume
    consume_call insert_pending_receipt log action_audit append_event lock_run write_event
    insert_event update_run appended_run spread assign last_checks check_grant judge_grant
    revalidate_grant revalidate_grant_for_dispatch pattern_matches split matches skip_then
    check_final_approval lock_approval lock_approval_for_execution expire_if_past judge_final
    judge_status dispatch_and_commit send settle_dispatch commit_invocation commit_receipt
    update_open settle_commit find_receipt_by_lineage_key lineage first_receipt
    replacement_root_run_id list_approvals
completes = refl

execute_governed_action-completed_example :
    IsEffected context write_file (world_with []) (some []) first_result
execute_governed_action-completed_example =
    execute_governed_action-completed context write_file (world_with []) (some []) first_result
      completes

abbrev committed_receipt : ToolReceiptRow
committed_receipt = record receipt_one { status = ReceiptStatus.committed; result = some [] }

abbrev after_commit : World
after_commit = world_with (committed_receipt ∷ [])

abbrev after_crash : World
after_crash = world_with (receipt_one ∷ [])

owned :
    (receipts : List ToolReceiptRow)
    → is_current_owner 1 5 (second_at context write_file (world_with receipts)).db ≡ true
unfolding is_current_owner arrive
owned receipts = refl

found :
    (existing_at context write_file after_commit ≡ some committed_receipt)
    × (existing_at context write_file after_crash ≡ some receipt_one)
unfolding find_receipt_by_lineage_key lineage first_receipt replacement_root_run_id arrive
found = (refl, refl)

execute_governed_action-deduplicates_example :
    (execute_governed_action context write_file after_commit
      ≡ (ok (completed (some []) true), third_at context write_file after_commit))
    × ((third_at context write_file after_commit).calls ≡ [])
execute_governed_action-deduplicates_example =
    execute_governed_action-deduplicates context write_file after_commit committed_receipt refl
      (owned (committed_receipt ∷ [])) found.0 refl

abbrev manual_file : GovernedActionSpec
manual_file = record write_file { recovery = reconcile }

execute_governed_action-manual_example :
    (execute_governed_action context manual_file after_crash).1.calls ≡ []
execute_governed_action-manual_example =
    execute_governed_action-manual context manual_file after_crash receipt_one refl refl refl
      (owned (receipt_one ∷ [])) found.1

abbrev world_pending : World
world_pending = world_with (receipt_one ∷ [])

abbrev checked : World
checked =
    (last_checks context write_file 77 receipt_one true (some grant_one) (some 41) world_pending).1

passes_checks :
    last_checks context write_file 77 receipt_one true (some grant_one) (some 41) world_pending
    ≡ (next tt, checked)
unfolding last_checks look ◌>>=◌ in_tx try_tx with_transaction assert_current_action_owner
    is_current_owner done throw return arrive check_grant judge_grant check_final_approval
    judge_final judge_status revalidate_grant lock_approval lock_approval_for_execution
    expire_if_past revalidate_grant_for_dispatch pattern_matches split matches skip_then
passes_checks = refl

last_checks-IsAuthorized_example :
    (u v : World) × (in_tx (assert_current_action_owner context) world_pending ≡ (next tt, u))
    × (check_grant context write_file receipt_one true (some grant_one) u ≡ (next tt, v))
    × IsRevalidated context write_file grant_one (arrive u).db
    × ((true ≡ false) ⊎ IsApproved context write_file 77 41 (arrive v).db)
    × OwnsRun context checked.db
last_checks-IsAuthorized_example =
    last_checks-IsAuthorized context write_file 77 receipt_one true grant_one 41 world_pending
      checked passes_checks
