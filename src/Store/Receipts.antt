-- ===== src/Store/Receipts.antt =====
-- src/store/receipts.ts: the receipts of external actions. A digest, such as `idempotencyKey` and
-- `sha256(canonicalJson(args))` return, is an argument.
pub mod Settlement
use managed_agents_runtime.Prelude.{
  ℕ, zero, suc, String, Bool, true, false, not, ◌&&◌, ◌||◌, List, ◌∷◌, [], Option, none, some,
  if◌then◌else◌, ◌==◌, find, any, row, update_where,
}
use managed_agents_runtime.Json.{Payload}
use managed_agents_runtime.Core.Types.{RunRow}
use managed_agents_runtime.Store.Rows.{
  ToolReceiptRow, ReceiptStatus, pending, committed, failed, needs_reconciliation,
}
use managed_agents_runtime.Store.Database.{
  Db, Tx, ok, ◌>>=◌, ◌>>◌, gets, modify, throw_if, pure, duplicate_key, message,
}

abbrev pub is_pending : ReceiptStatus → Bool
is_pending pending = true
is_pending _ = false

abbrev pub is_key : ℕ → ℕ → ToolReceiptRow → Bool
is_key run_id key r = (r.run_id == run_id) && (r.idempotency_key == key)

unfoldable pub find_receipt_by_key : ℕ → ℕ → Db → Option ToolReceiptRow
find_receipt_by_key run_id key db = find (is_key run_id key) db.receipts

abbrev pub new_receipt :
    ℕ → ℕ → ℕ → ℕ → String → ℕ → ℕ → Option ℕ → Option String → ℕ → ToolReceiptRow
new_receipt id run_id attempt_id step action digest key approval_id reversibility now = record {
  id = id;
  run_id = run_id;
  attempt_id = attempt_id;
  step = step;
  semantic_action = action;
  request_digest = digest;
  idempotency_key = key;
  approval_id = approval_id;
  status = pending;
  external_txn_id = none;
  result_digest = none;
  result = none;
  reversibility = elim reversibility [ none ↦ "unknown" | some r ↦ r ];
  started_at = now;
  completed_at = none;
}

-- The INSERT, with the constraints `id PRIMARY KEY` and `UNIQUE (run_id, idempotency_key)`.
unfoldable pub insert_pending_receipt :
    ℕ → ℕ → ℕ → ℕ → String → ℕ → ℕ → Option ℕ → Option String → Tx ToolReceiptRow
insert_pending_receipt id run_id attempt_id step action digest key approval_id reversibility = do
  taken ← gets (λ db. any (λ r. (r.id == id) || is_key run_id key r) db.receipts)
  throw_if taken duplicate_key
  db ← gets (λ db. db)
  let receipt =
      new_receipt id run_id attempt_id step action digest key approval_id reversibility db.now
  modify (λ db. record db { receipts = receipt ∷ db.receipts })
  pure receipt

-- The WHERE clause `id = $1 AND status = 'PENDING'` of the updates below.
abbrev pub is_open_receipt : ℕ → ToolReceiptRow → Bool
is_open_receipt receipt_id r = (r.id == receipt_id) && is_pending r.status

-- An UPDATE of the open receipt, and the throw if its row count is not 1. The primary key makes the
-- count 0 or 1.
unfoldable pub update_open : ℕ → (ToolReceiptRow → ToolReceiptRow) → Tx (Unit {0})
update_open receipt_id f = do
  there ← gets (λ db. any (is_open_receipt receipt_id) db.receipts)
  throw_if (not there) (message "receipt is no longer pending")
  modify (λ db. record db { receipts = update_where (is_open_receipt receipt_id) f db.receipts })

unfoldable pub commit_receipt : ℕ → Option String → Payload → ℕ → Tx (Unit {0})
unfolding update_open
commit_receipt receipt_id external_txn_id result digest db =
    update_open receipt_id
      (λ r. record r {
        status = committed;
        external_txn_id = external_txn_id;
        result = some result;
        result_digest = some digest;
        completed_at = some db.now;
      })
      db

unfoldable pub set_pending_receipt_approval : ℕ → ℕ → Tx (Unit {0})
unfolding update_open
set_pending_receipt_approval receipt_id approval_id =
    update_open receipt_id (λ r. record r { approval_id = some approval_id })

pub data Failure : Type 0 where
  fail reconcile : Failure

abbrev pub failure_status : Failure → ReceiptStatus
failure_status fail = failed
failure_status reconcile = needs_reconciliation

unfoldable pub fail_receipt : ℕ → Failure → Db → Db
fail_receipt receipt_id status db = record db {
  receipts =
      update_where (is_open_receipt receipt_id)
        (λ r. record r { status = failure_status status; completed_at = some db.now }) db.receipts;
}

-- The recursive query `lineage`: a run and those it replaces, the newest first. The fuel bounds the
-- length of the chain.
unfoldable pub lineage : ℕ → List RunRow → Option ℕ → List RunRow
lineage zero runs id = []
lineage (suc fuel) runs none = []
lineage (suc fuel) runs (some id) = elim (row RunRow.id id runs) [
  | none ↦ []
  | some r ↦ r ∷ lineage fuel runs r.replaces_run_id
]

abbrev is_root : RunRow → Bool
is_root r = elim r.replaces_run_id [ none ↦ true | some _ ↦ false ]

unfoldable pub replacement_root_run_id : ℕ → ℕ → Db → ℕ
unfolding lineage
replacement_root_run_id fuel run_id db = elim (find is_root (lineage fuel db.runs (some run_id))) [
  | none ↦ run_id
  | some r ↦ r.id
]

abbrev status_rank : ReceiptStatus → ℕ
status_rank committed = 0
status_rank pending = 1
status_rank _ = 2

-- `ORDER BY CASE status …, started_at DESC`.
abbrev pub goes_before : ToolReceiptRow → ToolReceiptRow → Bool
goes_before a b =
    managed_agents_runtime.Prelude.ltb (status_rank a.status) (status_rank b.status)
    || ((status_rank a.status == status_rank b.status)
        && managed_agents_runtime.Prelude.leb b.started_at a.started_at)

abbrev better_of : ToolReceiptRow → Option ToolReceiptRow → ToolReceiptRow
better_of r none = r
better_of r (some best) = if goes_before r best then r else best

unfoldable pub first_receipt : (ToolReceiptRow → Bool) → List ToolReceiptRow → Option ToolReceiptRow
first_receipt p [] = none
first_receipt p (r ∷ rest) =
    let later = first_receipt p rest in if p r then some (better_of r later) else later

unfoldable pub find_receipt_by_lineage_key : ℕ → ℕ → ℕ → Db → Option ToolReceiptRow
unfolding lineage first_receipt
find_receipt_by_lineage_key fuel run_id key db =
    let runs = lineage fuel db.runs (some run_id) in
    first_receipt (λ r. (r.idempotency_key == key) && any (λ run. run.id == r.run_id) runs)
      db.receipts
