-- ===== src/Store/Database.antt =====
-- src/db/tx.ts: the database as one value, and a transaction as a function of it. A query of the
-- sources is an operation on the lists of rows; an error carries no database, since every throw
-- rolls the transaction back. The row locks of `FOR UPDATE` make transactions on a row follow one
-- another, which is what passing one database value from each to the next says.
use managed_agents_runtime.Prelude.{
  true, false, ℕ, String, Bool, List, Option, none, some, ◌≡◌, refl,
}
use managed_agents_runtime.Core.Types.{RunStatus, RunRow, RunEventRow, RunAttemptRow}
use managed_agents_runtime.Store.Rows.{
  TenantRow, AdmissionRow, ManagedSessionRow, CapabilityGrantRow, ApprovalRow, ToolReceiptRow,
  OutboxRow, WorkspaceRow,
}

-- `now` is the transaction's `now()`, and `agent_tenant` the join of `agent_versions` with
-- `agent_definitions`: the tenant that owns an agent version.
pub record Db : Type 0 where
  pub now : ℕ
  pub runs : List RunRow
  pub events : List RunEventRow
  pub outbox : List OutboxRow
  pub attempts : List RunAttemptRow
  pub tenants : List TenantRow
  pub admissions : List AdmissionRow
  pub sessions : List ManagedSessionRow
  pub grants : List CapabilityGrantRow
  pub approvals : List ApprovalRow
  pub receipts : List ToolReceiptRow
  pub workspaces : List WorkspaceRow
  pub agent_tenant : ℕ → Option ℕ

pub data RunAdmissionReason : Type 0 where
  tenant_unavailable concurrency_exhausted token_capacity_exhausted : RunAdmissionReason

pub data Error : Type 0 where
  run_not_found : ℕ → Error
  unexpected_status : ℕ → RunStatus → List RunStatus → Error
  invalid_transition : ℕ → RunStatus → RunStatus → Error
  admission_rejected : RunAdmissionReason → Error
  session_admission : String → Error
  agent_version_mismatch : ℕ → ℕ → Error
  -- A PRIMARY KEY or UNIQUE constraint of the tables.
  duplicate_key : Error
  message : String → Error

pub data Result {ℓ} (A : Type ℓ) : Type ℓ where
  ok : A → Result A
  err : Error → Result A

abbrev pub Tx : Type 0 → Type 0
Tx A = Db → Result (A × Db)

abbrev pub pure : {A : Type 0} → A → Tx A
pure a db = ok (a, db)

abbrev pub throw : {A : Type 0} → Error → Tx A
throw e db = err e

infixl 5 ◌>>=◌ ◌>>◌
abbrev pub ◌>>=◌ : {A B : Type 0} → Tx A → (A → Tx B) → Tx B
◌>>=◌ m f db = elim (m db) [ ok (a, db') ↦ f a db' | err e ↦ err e ]

abbrev pub ◌>>◌ : {B : Type 0} → Tx (Unit {0}) → Tx B → Tx B
m >> k = m >>= λ _. k

abbrev pub modify : (Db → Db) → Tx (Unit {0})
modify f db = ok (tt, f db)

abbrev pub gets : {A : Type 0} → (Db → A) → Tx A
gets f db = ok (f db, db)

-- `if (failed) throw e`.
abbrev pub throw_if : Bool → Error → Tx (Unit {0})
throw_if true e db = err e
throw_if false e db = ok (tt, db)

abbrev pub or_throw : {A : Type 0} → Option A → Error → Tx A
or_throw none e db = err e
or_throw (some a) e db = ok (a, db)

-- `withTransaction` and `withClientTransaction`: the database after COMMIT, or after ROLLBACK.
unfoldable pub with_transaction : {A : Type 0} → Tx A → Db → Result A × Db
with_transaction fn db = elim (fn db) [ ok (a, db') ↦ (ok a, db') | err e ↦ (err e, db) ]

-- A successful bind is two successful steps.
pub >>=-eq-ok :
    {A B : Type 0} (m : Tx A) (f : A → Tx B) (db : Db) {r : B × Db}
    → (m >>= f) db ≡ ok r
    → (a : A) × (mid : Db) × (m db ≡ ok (a, mid)) × (f a mid ≡ ok r)
>>=-eq-ok {A} {B} m f db {r} h = go (m db) refl h
  where
    go :
        (x : Result (A × Db))
        → m db ≡ x
        → (elim x [ ok (a, db') ↦ f a db' | err e ↦ err e ]) ≡ ok r
        → (a : A) × (mid : Db) × (m db ≡ ok (a, mid)) × (f a mid ≡ ok r)
    go (ok (a, mid)) e k = (a, mid, e, k)
    go (err e) _ k = cc

pub with_transaction-ok :
    {A : Type 0} (fn : Tx A) (db : Db) (a : A) (db' : Db)
    → fn db ≡ ok (a, db')
    → with_transaction fn db ≡ (ok a, db')
unfolding with_transaction
with_transaction-ok fn db a db' h = rw (h, with_transaction)

pub with_transaction-err :
    {A : Type 0} (fn : Tx A) (db : Db) (e : Error)
    → fn db ≡ err e
    → with_transaction fn db ≡ (err e, db)
unfolding with_transaction
with_transaction-err fn db e h = rw (h, with_transaction)

-- A guard that passes, and a row that is there, change nothing.
pub throw_if-eq-ok :
    (b : Bool) (e : Error) (db : Db) (u : Unit {0}) (db' : Db)
    → throw_if b e db ≡ ok (u, db')
    → (b ≡ false) × (db' ≡ db)
throw_if-eq-ok true e db u db' h = absurd (cc)
throw_if-eq-ok false e db u db' h = (refl, cc)

pub or_throw-eq-ok :
    {A : Type 0} (o : Option A) (e : Error) (db : Db) (a : A) (db' : Db)
    → or_throw o e db ≡ ok (a, db')
    → (o ≡ some a) × (db' ≡ db)
or_throw-eq-ok none e db a db' h = absurd (cc)
or_throw-eq-ok (some x) e db a db' h = (cc, cc)

pub pure-eq-ok :
    {A : Type 0} (a : A) (db : Db) (b : A) (db' : Db)
    → pure a db ≡ ok (b, db')
    → (a ≡ b) × (db ≡ db')
pure-eq-ok a db b db' h = (cc, cc)
