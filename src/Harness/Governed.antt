-- ===== src/Harness/Governed.antt =====
-- src/harness/governedAction.ts: an external action, its result, and the effects it runs in. What
-- the code awaits reads and changes a `World`: the database, what the other sessions do to it between
-- two awaited queries, and the calls that reached the provider.
pub mod Audit
pub mod Recovery
pub mod Authority
pub mod Approval
pub mod Dispatch
pub mod Execute
pub mod Effects
pub mod Quiet
pub mod Approved
pub mod Cleared
pub mod Committed
pub mod Boundary
pub mod Once
pub mod Settled
use Prim.Native.Char.{code}
use managed_agents_runtime.Prelude.{
  ℕ, String, Bool, true, false, not, ◌&&◌, List, ◌∷◌, [], Option, none, some, ltb, ◌==◌, any,
}
use managed_agents_runtime.Json.{Payload}
use managed_agents_runtime.Core.Types.{RunRow, RunAttemptRow, running, status_eq, is_active}
use managed_agents_runtime.Store.Rows.{Text}
use managed_agents_runtime.Store.Database.{
  Db, Error, message, Result, ok, err, Tx, throw_if, with_transaction,
}

pub data ActionClassification : Type 0 where
  read mutation : ActionClassification

pub data RecoveryPolicy : Type 0 where
  retry_with_idempotency reconcile : RecoveryPolicy

pub data GovernedResult : Type 0 where
  completed : Option Payload → Bool → GovernedResult
  suspend_approval : ℕ → GovernedResult
  denied : String → GovernedResult
  reconciliation_required : String → GovernedResult

-- A call that reached the provider: its key, and the database when it was made.
pub record Call : Type 0 where
  pub key : ℕ
  pub credential : Option ℕ
  pub at : Db

-- `others` is what the other sessions do before each of the next transactions, one entry for each.
pub record World : Type 0 where
  pub db : Db
  pub others : List (Db → Db)
  pub calls : List Call

-- A statement goes on, returns from the whole action, or throws. What was committed stays.
pub data Outcome (A : Type 0) : Type 0 where
  next : A → Outcome A
  exit : GovernedResult → Outcome A
  thrown : Error → Outcome A

abbrev pub Fx : Type 0 → Type 0
Fx A = World → Outcome A × World

unfoldable pub done : {A : Type 0} → A → Fx A
done a w = (next a, w)

unfoldable pub return : {A : Type 0} → GovernedResult → Fx A
return r w = (exit r, w)

unfoldable pub throw : {A : Type 0} → Error → Fx A
throw e w = (thrown e, w)

abbrev pub continue : {A B : Type 0} → (A → Fx B) → Outcome A × World → Outcome B × World
continue f (next a, w) = f a w
continue f (exit r, w) = (exit r, w)
continue f (thrown e, w) = (thrown e, w)

infixl 5 ◌>>=◌ ◌>>◌
unfoldable pub ◌>>=◌ : {A B : Type 0} → Fx A → (A → Fx B) → Fx B
(m >>= f) w = continue f (m w)

abbrev pub ◌>>◌ : {B : Type 0} → Fx (Unit {0}) → Fx B → Fx B
m >> k = m >>= λ _. k

-- The database that the next transaction meets.
unfoldable pub arrive : World → World
arrive w = elim w.others [ [] ↦ w | change ∷ rest ↦ record w { db = change w.db; others = rest } ]

-- A transaction, its error as a value: `try { await withClientTransaction(…) } catch`.
unfoldable pub try_tx : {A : Type 0} → Tx A → Fx (Result A)
unfolding with_transaction
try_tx fn w =
    let there = arrive w in
    let (r, db) = with_transaction fn there.db in (next r, record there { db = db })

abbrev pub rethrow : {A : Type 0} → Result A → Fx A
rethrow (ok a) = done a
rethrow (err e) = throw e

unfoldable pub in_tx : {A : Type 0} → Tx A → Fx A
in_tx fn = try_tx fn >>= rethrow

unfoldable pub query : {A : Type 0} → (Db → A) → Fx A
query f w = let there = arrive w in (next (f there.db), there)

-- A call out of the process, other than the dispatch: its answer depends on the world as it is.
unfoldable pub look : {A : Type 0} → (World → A) → Fx A
look f w = (next (f w), w)

pub record Dispatched : Type 0 where
  pub value : Payload
  pub external_txn_id : Option String
  pub audit : Payload

pub data Reconciled : Type 0 where
  committed : Dispatched → Reconciled
  not_found unknown : Reconciled

pub data Validation : Type 0 where
  valid : Validation
  invalid : String → Validation

-- What `validate` is told.
pub record ValidationInput : Type 0 where
  pub has_declared_grant : Bool
  pub declared_grant_resource_patterns : List Text
  pub usable_grant_resource_patterns : List Text

-- A hook that is absent returns at once. `digest` is `sha256(canonicalJson(…))`, `args_digest` that of
-- the arguments. A throw of `dispatch` or of `reconcile` is an error.
pub record GovernedActionSpec : Type 0 where
  pub connector : String
  pub action : String
  pub resource : String
  pub args_digest : ℕ
  pub classification : ActionClassification
  pub require_grant : Bool
  pub prefer_exact_resource_grant : Bool
  pub recovery : RecoveryPolicy
  pub audit : Payload
  pub validate : Option (ValidationInput → Validation)
  pub before_dispatch : World → Result (Unit {0})
  pub after_dispatch : World → Result (Unit {0})
  pub after_commit : World → Result (Unit {0})
  pub reconcile : Option (World → Result Reconciled)
  pub dispatch : Option ℕ → World → Result Dispatched
  pub digest : Payload → ℕ

-- `credentials` is the `resolve` of the credential provider, `idempotency_key` the digest of the run
-- that the key is rooted in, `aborted` whether the signal is,
-- `abort_reason` its reason where that is an error, and `lineage_fuel` bounds the chain of
-- the runs replaced. The two ids are those that `newId` returns.
pub record GovernedActionContext : Type 0 where
  pub run : RunRow
  pub attempt : RunAttemptRow
  pub step : ℕ
  pub credentials : Option (Option ℕ → World → Result (Option ℕ))
  pub aborted : World → Bool
  pub abort_reason : Option Error
  pub idempotency_key : ℕ → ℕ
  pub lineage_fuel : ℕ
  pub new_approval_id : ℕ
  pub new_receipt_id : ℕ

-- `signal.reason instanceof Error ? signal.reason : error`.
abbrev pub reason_or : Option Error → Error → Error
reason_or none e = e
reason_or (some reason) e = reason

-- A string as its code units, where the code reads its characters.
abbrev pub codes : String → Text
codes String.[] = []
codes (String.◌∷◌ c s) = code c ∷ codes s

abbrev pub is_id : ℕ → Option ℕ → Bool
is_id id none = false
is_id id (some k) = k == id

-- The join of the run with its current attempt, which must hold its lease.
unfoldable pub is_current_owner : ℕ → ℕ → Db → Bool
is_current_owner run_id attempt_id db =
    any
      (λ r.
        (r.id == run_id)
        && status_eq r.status running
        && is_id attempt_id r.current_attempt_id
        && any
            (λ a.
              (a.id == attempt_id)
              && (a.run_id == r.id)
              && is_active a.state
              && ltb db.now a.lease_expires_at)
            db.attempts)
      db.runs

unfoldable pub assert_current_action_owner : GovernedActionContext → Tx (Unit {0})
assert_current_action_owner ctx db =
    throw_if (not (is_current_owner ctx.run.id ctx.attempt.id db))
      (message "governed action attempt is no longer current") db
