-- ===== src/Store/Receipts/Settlement.antt =====
-- How a receipt of src/store/receipts.ts is settled.
use managed_agents_runtime.Prelude.{
  ℕ, String, ◌≡◌, refl, sym, ap, true, false, ◌||◌, List, ◌∷◌, [], Option, none, some, arith, ◌==◌,
  any, find, update_where,
}
use mathlib.Core.Path.{subst}
use managed_agents_runtime.Json.{Payload}
use managed_agents_runtime.Store.Rows.{ToolReceiptRow, pending}
use managed_agents_runtime.Store.Database.{Db, ok, err, message, duplicate_key}
use managed_agents_runtime.Store.Receipts.{
  Failure, is_pending, is_key, is_open_receipt, new_receipt, insert_pending_receipt,
  find_receipt_by_key, update_open, commit_receipt, set_pending_receipt_approval, fail_receipt,
}

closed_update :
    (id : ℕ) (f : ToolReceiptRow → ToolReceiptRow) (xs : List ToolReceiptRow)
    → any (is_open_receipt id) xs ≡ false
    → update_where (is_open_receipt id) f xs ≡ xs
closed_update id f [] h = refl
closed_update id f (x ∷ xs) h = ground (arith, closed_update id f xs)

closes :
    (id : ℕ) (f : ToolReceiptRow → ToolReceiptRow) (xs : List ToolReceiptRow)
    → ((r : ToolReceiptRow) → is_pending (f r).status ≡ false)
    → any (is_open_receipt id) (update_where (is_open_receipt id) f xs) ≡ false
closes id f [] h = refl
closes id f (x ∷ xs) h = ground (arith, h x, closes id f xs h)

pub update_open-eq-ok :
    (id : ℕ) (f : ToolReceiptRow → ToolReceiptRow) (db db' : Db)
    → update_open id f db ≡ ok (tt, db')
    → (any (is_open_receipt id) db.receipts ≡ true)
      × (db' ≡ record db { receipts = update_where (is_open_receipt id) f db.receipts })
unfolding update_open
update_open-eq-ok id f db db' h = (ground arith, ground arith)

update_open-closed :
    (id : ℕ) (f : ToolReceiptRow → ToolReceiptRow) (db : Db)
    → any (is_open_receipt id) db.receipts ≡ false
    → update_open id f db ≡ err (message "receipt is no longer pending")
unfolding update_open
update_open-closed id f db h = rw (h)

-- Nothing settles a receipt that is not pending: a commit and a fresh approval throw, and a failure
-- changes no table.
closed_frozen :
    (id : ℕ) (db : Db)
    → any (is_open_receipt id) db.receipts ≡ false
    → ((txn : Option String) (result : Payload) (digest : ℕ)
        → commit_receipt id txn result digest db ≡ err (message "receipt is no longer pending"))
      × ((approval_id : ℕ)
          → set_pending_receipt_approval id approval_id db
            ≡ err (message "receipt is no longer pending"))
      × ((failure : Failure) → (fail_receipt id failure db).receipts ≡ db.receipts)
unfolding commit_receipt set_pending_receipt_approval fail_receipt
closed_frozen id db h = (
  λ txn result digest. update_open-closed id _ db h,
  λ approval_id. update_open-closed id _ db h,
  λ failure. closed_update id _ db.receipts h,
)

-- A committed receipt was pending, and it is settled for good: every later commit of it and every
-- new approval throws, and a later failure leaves all receipts as they are.
pub commit_receipt_once :
    (id : ℕ) (txn : Option String) (result : Payload) (digest : ℕ) (db db' : Db)
    → commit_receipt id txn result digest db ≡ ok (tt, db')
    → (any (is_open_receipt id) db.receipts ≡ true)
      × ((txn' : Option String) (result' : Payload) (digest' : ℕ)
          → commit_receipt id txn' result' digest' db'
            ≡ err (message "receipt is no longer pending"))
      × ((approval_id : ℕ)
          → set_pending_receipt_approval id approval_id db'
            ≡ err (message "receipt is no longer pending"))
      × ((failure : Failure) → (fail_receipt id failure db').receipts ≡ db'.receipts)
unfolding commit_receipt
commit_receipt_once id txn result digest db db' h =
    let (was_open, e) = update_open-eq-ok id _ db db' h in
    let closed = closes id _ db.receipts (λ r. refl) in
    let (commits, approvals, failures) =
      closed_frozen id db'
        (subst (λ d. any (is_open_receipt id) d.receipts ≡ false) (sym e) closed) in
    (was_open, commits, approvals, failures)

keys_gone :
    (id run_id key : ℕ) (xs : List ToolReceiptRow)
    → any (λ r. (r.id == id) || is_key run_id key r) xs ≡ false
    → find (is_key run_id key) xs ≡ none
keys_gone id run_id key [] h = refl
keys_gone id run_id key (x ∷ xs) h = ground (arith, keys_gone id run_id key xs)

insert_pending_receipt-eq-ok :
    (id run_id attempt_id step : ℕ) (action : String) (digest key : ℕ) (approval_id : Option ℕ)
    (reversibility : Option String) (db : Db) (r : ToolReceiptRow) (db' : Db)
    → insert_pending_receipt id run_id attempt_id step action digest key approval_id reversibility
        db
      ≡ ok (r, db')
    → (any (λ r. (r.id == id) || is_key run_id key r) db.receipts ≡ false)
      × (r
          ≡ new_receipt id run_id attempt_id step action digest key approval_id reversibility
              db.now)
      × (db' ≡ record db { receipts = r ∷ db.receipts })
unfolding insert_pending_receipt
insert_pending_receipt-eq-ok id run_id attempt_id step action digest key approval_id reversibility
      db r db' h =
    (ground arith, ground arith, ground arith)

key_taken :
    (id id' run_id attempt_id step : ℕ) (action : String) (digest key : ℕ) (approval_id : Option ℕ)
    (reversibility : Option String) (db : Db) (r : ToolReceiptRow)
    → is_key run_id key r ≡ true
    → insert_pending_receipt id' run_id attempt_id step action digest key approval_id reversibility
        (record db { receipts = r ∷ db.receipts })
      ≡ err duplicate_key
unfolding insert_pending_receipt
key_taken id id' run_id attempt_id step action digest key approval_id reversibility db r h =
    ground arith

-- A pending receipt is inserted only where the run has none with its key; it is then the one that
-- the key finds, and another insert for the run and key is refused, whatever its other columns are.
pub insert_pending_receipt_once :
    (id run_id attempt_id step : ℕ) (action : String) (digest key : ℕ) (approval_id : Option ℕ)
    (reversibility : Option String) (db : Db) (r : ToolReceiptRow) (db' : Db)
    → insert_pending_receipt id run_id attempt_id step action digest key approval_id reversibility
        db
      ≡ ok (r, db')
    → (find_receipt_by_key run_id key db ≡ none)
      × (find_receipt_by_key run_id key db' ≡ some r)
      × (r.status ≡ pending)
      × ((id' attempt' step' : ℕ) (action' : String) (digest' : ℕ) (approval' : Option ℕ)
            (reversibility' : Option String)
          → insert_pending_receipt id' run_id attempt' step' action' digest' key approval'
              reversibility' db'
            ≡ err duplicate_key)
unfolding find_receipt_by_key
insert_pending_receipt_once id run_id attempt_id step action digest key approval_id reversibility db
      r db' h =
    let (free, e, e') =
      insert_pending_receipt-eq-ok id run_id attempt_id step action digest key approval_id
        reversibility db r db' h in
    let keyed : is_key run_id key r ≡ true = rw e (ground arith) in
    (
      keys_gone id run_id key db.receipts free,
      rw e' (rw keyed),
      ap (λ r. r.status) e,
      λ id' attempt' step' action' digest' approval' reversibility'. rw e' (
          key_taken id id' run_id attempt' step' action' digest' key approval' reversibility' db r
            keyed),
    )
