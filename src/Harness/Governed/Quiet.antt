-- ===== src/Harness/Governed/Quiet.antt =====
-- What the stages of src/harness/governedAction.ts that come before the call check, and that none of
-- them makes it.
use managed_agents_runtime.Prelude.{ℕ, refl, String, Bool, true, false, Option, none, some}
use managed_agents_runtime.Store.Rows.{
  CapabilityGrantRow, ApprovalStatus, ApprovalRow, ToolReceiptRow, approved,
}
use managed_agents_runtime.Store.Database.{Result, ok, err, Tx}
use managed_agents_runtime.Harness.Governed.{
  reconcile, retry_with_idempotency, World, Fx, ◌>>=◌, in_tx, rethrow, look, Reconciled, committed,
  not_found, unknown, RecoveryPolicy, GovernedActionSpec, GovernedActionContext,
}
use managed_agents_runtime.Harness.Governed.Audit.{Stage, approval}
use managed_agents_runtime.Harness.Governed.Recovery.{
  end_uncertain, end_undispatched, end_denied, request_fresh_approval, check_status, check_existing,
  settle_reconciled, reconcile_pending, recover,
}
use managed_agents_runtime.Harness.Governed.Authority.{deny, refuse_ungranted}
use managed_agents_runtime.Harness.Governed.Approval.{renew_or_deny}
use managed_agents_runtime.Harness.Governed.Effects.{
  IsQuiet, Anything, >>=-IsQuiet, done-IsQuiet, return-IsQuiet, throw-IsQuiet, look-IsQuiet,
  if-IsQuiet, in_tx-IsQuiet,
}

module _ {A B : Type 0} (R : B → World → Type 0) (m : Fx A) (f : A → Fx B) where
  pub follows : IsQuiet m Anything → ((a : A) → IsQuiet (f a) R) → IsQuiet (m >>= f) R
  follows hm hf = >>=-IsQuiet Anything R m f hm (λ a w _. hf a w)

pub tx_is_quiet : {A : Type 0} (fn : Tx A) → IsQuiet (in_tx fn) Anything
tx_is_quiet fn = in_tx-IsQuiet fn Anything (λ db a w e. tt)

pub look_is_quiet : {A : Type 0} (f : World → A) → IsQuiet (look f) Anything
look_is_quiet f = look-IsQuiet Anything f (λ w. tt)

pub rethrow_is_quiet : (r : Result (Unit {0})) → IsQuiet (rethrow r) Anything
rethrow_is_quiet (ok a) = done-IsQuiet Anything a (λ w. tt)
rethrow_is_quiet (err e) = throw-IsQuiet Anything e

module _ (ctx : GovernedActionContext) (spec : GovernedActionSpec) where
  module _ {A : Type 0} (R : A → World → Type 0) where
    pub end_uncertain-IsQuiet :
        (id : ℕ) (reason : String) → IsQuiet (end_uncertain {A = A} ctx spec id reason) R
    unfolding end_uncertain
    end_uncertain-IsQuiet id reason = follows R _ _ (tx_is_quiet _) (λ _. return-IsQuiet R _ tt)

    pub end_undispatched-IsQuiet :
        (id : ℕ) (reason : String) (stage : Stage)
        → IsQuiet (end_undispatched {A = A} ctx spec id reason stage) R
    unfolding end_undispatched
    end_undispatched-IsQuiet id reason stage =
        follows R _ _ (tx_is_quiet _) (λ _. return-IsQuiet R _ tt)

    pub end_denied-IsQuiet :
        (reason : String) (stage : Stage) → IsQuiet (end_denied {A = A} ctx spec reason stage) R
    unfolding end_denied
    end_denied-IsQuiet reason stage = follows R _ _ (tx_is_quiet _) (λ _. return-IsQuiet R _ tt)

    pub request_fresh_approval-IsQuiet :
        (key : ℕ) (receipt_id : Option ℕ)
        → IsQuiet (request_fresh_approval {A = A} ctx spec key receipt_id) R
    unfolding request_fresh_approval
    request_fresh_approval-IsQuiet key receipt_id =
        follows R _ _ (tx_is_quiet _) (λ _. return-IsQuiet R _ tt)

    pub deny-IsQuiet :
        (existing : Option ToolReceiptRow) (absent : Bool) (reason : String) (stage : Stage)
        → IsQuiet (deny {A = A} ctx spec existing absent reason stage) R
    unfolding deny
    deny-IsQuiet none absent reason stage = end_denied-IsQuiet reason stage
    deny-IsQuiet (some r) true reason stage = end_undispatched-IsQuiet r.id reason stage
    deny-IsQuiet (some r) false reason stage = end_denied-IsQuiet reason stage

    pub renew_or_deny-IsQuiet :
        (key : ℕ) (existing : Option ToolReceiptRow) (reason : String)
        → IsQuiet (renew_or_deny {A = A} ctx spec key existing reason) R
    unfolding renew_or_deny
    renew_or_deny-IsQuiet key none reason = end_denied-IsQuiet reason approval
    renew_or_deny-IsQuiet key (some r) reason = request_fresh_approval-IsQuiet key (some r.id)

    pub refuse_ungranted-IsQuiet :
        (existing : Option ToolReceiptRow) (absent : Bool) (reason : String)
        → IsQuiet (refuse_ungranted {A = A} ctx spec existing absent reason) R
    unfolding refuse_ungranted
    refuse_ungranted-IsQuiet none absent reason = end_denied-IsQuiet reason _
    refuse_ungranted-IsQuiet (some r) true reason = end_undispatched-IsQuiet r.id reason _
    refuse_ungranted-IsQuiet (some r) false reason = end_uncertain-IsQuiet r.id reason

  check_status-IsQuiet :
      (status : _) (existing : ToolReceiptRow) → IsQuiet (check_status status existing) Anything
  unfolding check_status
  check_status-IsQuiet managed_agents_runtime.Store.Rows.ReceiptStatus.pending r =
      done-IsQuiet Anything tt (λ w. tt)
  check_status-IsQuiet managed_agents_runtime.Store.Rows.ReceiptStatus.committed r =
      return-IsQuiet Anything _ refl
  check_status-IsQuiet managed_agents_runtime.Store.Rows.ReceiptStatus.failed r =
      return-IsQuiet Anything _ tt
  check_status-IsQuiet managed_agents_runtime.Store.Rows.ReceiptStatus.needs_reconciliation r =
      return-IsQuiet Anything _ tt

  pub check_existing-IsQuiet :
      (existing : Option ToolReceiptRow) → IsQuiet (check_existing existing) Anything
  unfolding check_existing
  check_existing-IsQuiet none = done-IsQuiet Anything tt (λ w. tt)
  check_existing-IsQuiet (some r) = check_status-IsQuiet r.status r

  settle_reconciled-IsQuiet :
      (r : ToolReceiptRow) (aborted : Bool) (answer : Result Reconciled)
      → IsQuiet (settle_reconciled ctx spec r aborted answer) Anything
  unfolding settle_reconciled
  settle_reconciled-IsQuiet r aborted (err e) =
      if-IsQuiet Anything aborted _ _ (throw-IsQuiet Anything _)
        (end_uncertain-IsQuiet Anything r.id _)
  settle_reconciled-IsQuiet r aborted (ok (committed d)) =
      follows Anything _ _ (tx_is_quiet _) (λ _. return-IsQuiet Anything _ refl)
  settle_reconciled-IsQuiet r aborted (ok unknown) = end_uncertain-IsQuiet Anything r.id _
  settle_reconciled-IsQuiet r aborted (ok not_found) = done-IsQuiet Anything true (λ w. tt)

  reconcile_pending-IsQuiet :
      (r : ToolReceiptRow) (ask : Option (World → Result Reconciled))
      → IsQuiet (reconcile_pending ctx spec r ask) Anything
  unfolding reconcile_pending
  reconcile_pending-IsQuiet r none = end_uncertain-IsQuiet Anything r.id _
  reconcile_pending-IsQuiet r (some ask) = follows Anything _ _ (look_is_quiet ask) (λ answer.
      follows Anything _ _ (look_is_quiet ctx.aborted)
        (λ aborted. settle_reconciled-IsQuiet r aborted answer))

  pub recover-IsQuiet :
      (policy : RecoveryPolicy) (existing : Option ToolReceiptRow)
      → IsQuiet (recover ctx spec policy existing) Anything
  unfolding recover
  recover-IsQuiet retry_with_idempotency existing = done-IsQuiet Anything false (λ w. tt)
  recover-IsQuiet reconcile none = done-IsQuiet Anything false (λ w. tt)
  recover-IsQuiet reconcile (some r) = reconcile_pending-IsQuiet r spec.reconcile
