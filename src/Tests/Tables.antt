-- ===== src/Tests/Tables.antt =====
-- Operations of the store on the small database.
use managed_agents_runtime.Prelude.{
  ℕ, String, ◌+◌, ◌++◌, ◌≡◌, ◌⊎◌, ◌↔◌, ◌≤◌, ◌<◌, refl, Bool, true, false, List, ◌∷◌, [], Option,
  none, some, row, arith, any, All, Some, length,
}
use managed_agents_runtime.Json.{Payload}
use managed_agents_runtime.Core.Types.{RunRow}
use managed_agents_runtime.Store.Rows.{
  Text, TenantRow, TenantStatus, direct, ApprovalRow, ApprovalStatus, ToolReceiptRow, ReceiptStatus,
  OutboxRow,
}
use managed_agents_runtime.Store.Database.{Db, Result, Error, ok, err, message, duplicate_key}
use managed_agents_runtime.Store.Admissions.{
  AdmissionCapacity, lock_run_admission_tenant_row, lock_run_admission_tenant, reconcile_terminal,
  count_active, used_today, remaining_reserved, reserve_within, admit, prepare_locked,
  prepare_run_admission, new_admission, record_run_admission,
}
use managed_agents_runtime.Store.Admissions.Capacity.{
  HasRoom, prepare_run_admission-HasRoom, record_run_admission-within,
}
use managed_agents_runtime.Store.Attempts.{exit_attempt, heartbeat_attempt}
use managed_agents_runtime.Store.Attempts.Fencing.{exit_attempt_fences}
use managed_agents_runtime.Store.Grants.{
  allowed, consume, consume_call, is_matching, matching_grants, list_grants, sort_by_created,
  authorize_and_consume,
}
use managed_agents_runtime.Store.Grants.Pattern.{split, skip_then, matches, pattern_matches}
use managed_agents_runtime.Store.Grants.Pattern.Glob.{IsGlob, pattern_matches_iff}
use managed_agents_runtime.Store.Grants.Consumption.{
  IsWithinCap, IsDecided, authorize_and_consume-caps, authorize_and_consume_outcomes,
}
use managed_agents_runtime.Store.Approvals.{
  approve, deny, decide, decide_approval, expire_if_past, lock_approval_for_execution,
}
use managed_agents_runtime.Store.Approvals.Decision.{
  IsFor, lock_approval_for_execution-IsValid, decide_approval_once,
}
use managed_agents_runtime.Store.Receipts.{
  Failure, is_open_receipt, new_receipt, commit_receipt, set_pending_receipt_approval, fail_receipt,
  find_receipt_by_key, insert_pending_receipt,
}
use managed_agents_runtime.Store.Receipts.Settlement.{
  commit_receipt_once, insert_pending_receipt_once,
}
use managed_agents_runtime.Store.Outbox.{batch, drain_outbox}
use managed_agents_runtime.Store.Outbox.Delivery.{delivered, drain_outbox_outcomes}
use managed_agents_runtime.Store.ModelUsage.{
  Usage, Metered, complete_locked, complete_model_invocation, is_running_as,
}
use managed_agents_runtime.Store.ModelUsage.Metering.{usage_event, complete_model_invocation-adds}
use managed_agents_runtime.Transition.{lock_run, append_event, write_event}
use managed_agents_runtime.Tests.Data.{tenant_one, grant_one, approval_of, receipt_one, db_zero}

abbrev capacity_one : AdmissionCapacity
capacity_one = record { reserved_tokens = 500; effective_token_budget = some 500 }

abbrev db_reconciled : Db
db_reconciled = reconcile_terminal 1 db_zero

prepares : prepare_run_admission 1 (some 500) db_zero ≡ ok (capacity_one, db_reconciled)
unfolding prepare_run_admission lock_run_admission_tenant lock_run_admission_tenant_row
    prepare_locked count_active used_today remaining_reserved reserve_within admit
    reconcile_terminal
prepares = refl

prepare_run_admission-HasRoom_example :
    (tenant : TenantRow) × (row TenantRow.id 1 db_zero.tenants ≡ some tenant)
    × (tenant.status ≡ TenantStatus.active)
    × (db_reconciled ≡ reconcile_terminal 1 db_zero)
    × HasRoom 1 tenant capacity_one db_reconciled
prepare_run_admission-HasRoom_example =
    prepare_run_admission-HasRoom 1 (some 500) db_zero capacity_one db_reconciled prepares

abbrev db_admitted : Db
db_admitted = record db_reconciled {
  admissions = new_admission 3 1 direct 500 ∷ db_reconciled.admissions;
}

records : record_run_admission 3 1 direct 500 db_reconciled ≡ ok (tt, db_admitted)
unfolding record_run_admission reconcile_terminal
records = refl

record_run_admission-within_example :
    (count_active 1 db_admitted ≤ 5)
    × (used_today 1 db_admitted + remaining_reserved 1 db_admitted ≤ 10000)
record_run_admission-within_example =
    record_run_admission-within 3 1 direct (some 500) tenant_one db_zero capacity_one db_reconciled
      db_admitted refl prepares records

abbrev db_exited : Db
db_exited = (elim (exit_attempt 5 "completed" db_zero) [ ok (_, db) ↦ db | err _ ↦ db_zero ])

exits : exit_attempt 5 "completed" db_zero ≡ ok (true, db_exited)
unfolding exit_attempt
exits = refl

exit_attempt_fences_example :
    (heartbeat_attempt 5 1000 db_exited ≡ ok (false, db_exited))
    × (exit_attempt 5 "error" db_exited ≡ ok (false, db_exited))
exit_attempt_fences_example =
    exit_attempt_fences 5 "completed" "error" 1000 db_zero true db_exited exits

-- `fs.w` on `/a`.
abbrev write_action : Text
write_action = 102 ∷ 115 ∷ 46 ∷ 119 ∷ []

abbrev some_resource : Text
some_resource = 47 ∷ 97 ∷ []

pattern_matches_iff_example :
    (pattern_matches (102 ∷ 115 ∷ 46 ∷ 42 ∷ []) write_action ≡ true)
    ↔ IsGlob (102 ∷ 115 ∷ 46 ∷ 42 ∷ []) write_action
pattern_matches_iff_example = pattern_matches_iff (102 ∷ 115 ∷ 46 ∷ 42 ∷ []) write_action

abbrev db_used : Db
db_used = record db_zero { grants = record grant_one { calls_used = 2 } ∷ [] }

authorizes :
    authorize_and_consume 100 1 write_action some_resource none db_zero
    ≡ ok (allowed grant_one true, db_used)
unfolding authorize_and_consume matching_grants list_grants sort_by_created is_matching
    pattern_matches split matches skip_then consume consume_call
authorizes = refl

one_used : All IsWithinCap db_zero.grants
one_used = (omega arith, tt)

authorize_and_consume-caps_example : All IsWithinCap db_used.grants
authorize_and_consume-caps_example =
    authorize_and_consume-caps 100 1 write_action some_resource none db_zero
      (allowed grant_one true) db_used (tt, tt) one_used authorizes

authorize_and_consume_outcomes_example :
    IsDecided 100 1 write_action some_resource none db_zero db_used (allowed grant_one true)
authorize_and_consume_outcomes_example =
    authorize_and_consume_outcomes 100 1 write_action some_resource none db_zero
      (allowed grant_one true) db_used authorizes

locks :
    lock_approval_for_execution 100 41 1 write_action some_resource 77 db_zero
    ≡ ok (some (approval_of ApprovalStatus.approved), db_zero)
unfolding lock_approval_for_execution expire_if_past
locks = refl

lock_approval_for_execution-IsValid_example :
    IsFor 41 1 write_action some_resource 77 (approval_of ApprovalStatus.approved)
    × Some (λ b. b ≡ approval_of ApprovalStatus.approved) db_zero.approvals
    × (100 < 900)
    × (db_zero ≡ db_zero)
lock_approval_for_execution-IsValid_example =
    lock_approval_for_execution-IsValid 100 41 1 write_action some_resource 77 db_zero
      (approval_of ApprovalStatus.approved) db_zero locks refl

abbrev db_asked : Db
db_asked = record db_zero { approvals = approval_of ApprovalStatus.pending ∷ [] }

abbrev denied_approval : ApprovalRow
denied_approval = decide deny "auditor" 100 (approval_of ApprovalStatus.pending)

abbrev db_denied : Db
db_denied = record db_zero { approvals = denied_approval ∷ [] }

denies : decide_approval 41 deny "auditor" db_asked ≡ ok (some denied_approval, db_denied)
unfolding decide_approval
denies = refl

decide_approval_once_example : decide_approval 41 approve "owner" db_denied ≡ ok (none, db_denied)
decide_approval_once_example =
    decide_approval_once 41 deny approve "auditor" "owner" db_asked (some denied_approval) db_denied
      denies

abbrev db_committed : Db
db_committed = elim (commit_receipt 51 none [] 9 db_zero) [ ok (_, db) ↦ db | err _ ↦ db_zero ]

commits : commit_receipt 51 none [] 9 db_zero ≡ ok (tt, db_committed)
unfolding commit_receipt
commits = refl

commit_receipt_once_example :
    (any (is_open_receipt 51) db_zero.receipts ≡ true)
    × ((txn' : Option String) (result' : Payload) (digest' : ℕ)
        → commit_receipt 51 txn' result' digest' db_committed
          ≡ err (message "receipt is no longer pending"))
    × ((approval_id : ℕ)
        → set_pending_receipt_approval 51 approval_id db_committed
          ≡ err (message "receipt is no longer pending"))
    × ((failure : Failure)
        → (fail_receipt 51 failure db_committed).receipts ≡ db_committed.receipts)
commit_receipt_once_example = commit_receipt_once 51 none [] 9 db_zero db_committed commits

abbrev receipt_two : ToolReceiptRow
receipt_two = new_receipt 52 1 5 2 "fs.w" 67 78 none none 100

abbrev db_noted : Db
db_noted = record db_zero { receipts = receipt_two ∷ receipt_one ∷ [] }

inserts :
    insert_pending_receipt 52 1 5 2 "fs.w" 67 78 none none db_zero ≡ ok (receipt_two, db_noted)
unfolding insert_pending_receipt
inserts = refl

insert_pending_receipt_once_example :
    (find_receipt_by_key 1 78 db_zero ≡ none)
    × (find_receipt_by_key 1 78 db_noted ≡ some receipt_two)
    × (receipt_two.status ≡ ReceiptStatus.pending)
    × ((id' attempt' step' : ℕ) (action' : String) (digest' : ℕ) (approval' : Option ℕ)
          (reversibility' : Option String)
        → insert_pending_receipt id' 1 attempt' step' action' digest' 78 approval' reversibility'
            db_noted
          ≡ err duplicate_key)
insert_pending_receipt_once_example =
    insert_pending_receipt_once 52 1 5 2 "fs.w" 67 78 none none db_zero receipt_two db_noted inserts

abbrev all_free : ℕ → Bool
all_free id = true

abbrev accepts : List OutboxRow → Result (Unit {0})
accepts rows = ok tt

drain_outbox_outcomes_example :
    let rows = batch all_free 3 db_zero in
    let (result, db') = drain_outbox all_free accepts 3 db_zero in
    All (λ r. (r.published_at ≡ none) × (all_free r.id ≡ true)) rows
    × All (λ r. Some (λ s. s ≡ r) db_zero.outbox) rows
    × (length rows ≤ 3)
    × (((result ≡ ok (length rows))
          × ((rows ≡ []) ⊎ (accepts rows ≡ ok tt))
          × (db' ≡ record db_zero { outbox = delivered rows 100 db_zero.outbox }))
        ⊎ ((e : Error) × (result ≡ err e) × (db' ≡ db_zero)))
drain_outbox_outcomes_example = drain_outbox_outcomes all_free accepts 3 db_zero

abbrev usage_one : Usage
usage_one = record { input_tokens = 30; output_tokens = 12 }

abbrev metered : Metered
metered = record { tokens_used = 142; still_owned = true }

abbrev db_charged : Db
db_charged = elim (complete_model_invocation 1 5 3 usage_one db_zero) [
  | ok (_, db) ↦ db
  | err _ ↦ db_zero
]

charges : complete_model_invocation 1 5 3 usage_one db_zero ≡ ok (metered, db_charged)
unfolding complete_model_invocation complete_locked append_event lock_run write_event
charges = refl

complete_model_invocation-adds_example :
    (before after : RunRow) × (row RunRow.id 1 db_zero.runs ≡ some before)
    × (row RunRow.id 1 db_charged.runs ≡ some after)
    × (after.tokens_used ≡ before.tokens_used + 42)
    × (after.last_event_seq ≡ before.last_event_seq + 1)
    × (db_charged.events
        ≡ db_zero.events ++ usage_event 1 5 3 usage_one (before.last_event_seq + 1) 100 ∷ [])
    × (142 ≡ after.tokens_used)
    × ((true ≡ false) ⊎ (is_running_as 5 before ≡ true))
complete_model_invocation-adds_example =
    complete_model_invocation-adds 1 5 3 usage_one db_zero metered db_charged charges
