-- ===== src/Harness/Governed/Cleared.antt =====
-- What src/harness/governedAction.ts has checked last when it makes the call: the ownership of the run.
use managed_agents_runtime.Prelude.{
  ℕ, ◌≡◌, ◌<◌, refl, ap, String, Bool, true, false, ◌&&◌, List, ◌∷◌, [], Option, none, some, any,
  Some, Some-map, arith, ==_iff, ltb→lt, Bool-cases, inl, inr,
}
use managed_agents_runtime.Core.Types.{running, status_eq_sound, AttemptState, active, is_active}
use managed_agents_runtime.Store.Rows.{
  CapabilityGrantRow, ApprovalStatus, ApprovalRow, ToolReceiptRow,
}
use managed_agents_runtime.Store.Database.{Db, ok}
use managed_agents_runtime.Harness.Governed.{
  World, in_tx, GovernedActionSpec, GovernedActionContext, is_id, is_current_owner,
  assert_current_action_owner,
}
use managed_agents_runtime.Harness.Governed.Audit.{Stage, approval, policy}
use managed_agents_runtime.Harness.Governed.Approval.{needs_approval}
use managed_agents_runtime.Harness.Governed.Dispatch.{
  deny_open, judge_grant, check_grant, judge_status, judge_final, check_final_approval, last_checks,
}
use managed_agents_runtime.Harness.Governed.Effects.{
  IsQuiet, Anything, done-IsQuiet, if-IsQuiet, in_tx-IsQuiet,
}
use managed_agents_runtime.Harness.Governed.Quiet.{
  follows, tx_is_quiet, look_is_quiet, rethrow_is_quiet, end_undispatched-IsQuiet,
  end_denied-IsQuiet, request_fresh_approval-IsQuiet,
}

-- The run is RUNNING under the attempt, which is active and whose lease has not run out.
abbrev pub OwnsRun : GovernedActionContext → Db → Type 0
OwnsRun ctx db =
    Some
      (λ r.
        (r.id ≡ ctx.run.id)
        × (r.status ≡ running)
        × (r.current_attempt_id ≡ some ctx.attempt.id)
        × Some
            (λ a.
              (a.id ≡ ctx.attempt.id)
              × (a.run_id ≡ r.id)
              × (a.state ≡ active)
              × (db.now < a.lease_expires_at))
            db.attempts)
      db.runs

any-Some : {A : Type 0} (p : A → Bool) (xs : List A) → any p xs ≡ true → Some (λ x. p x ≡ true) xs
any-Some p [] h = cc
any-Some p (x ∷ xs) h = elim (Bool-cases (p x)) [
  | inl here ↦ inl here
  | inr later ↦ inr (any-Some p xs (ground arith))
]

four_parts :
    (a b c d : Bool) → (a && b && c && d) ≡ true → (a ≡ true) × (b ≡ true) × (c ≡ true) × (d ≡ true)
four_parts a b c d h = (ground arith, ground arith, ground arith, ground arith)

is_id_sound : (id : ℕ) (o : Option ℕ) → is_id id o ≡ true → o ≡ some id
is_id_sound id none h = cc
is_id_sound id (some k) h = ap some ((==_iff k id).0 h)

is_active_sound : (s : AttemptState) → is_active s ≡ true → s ≡ active
is_active_sound active h = refl
is_active_sound _ h = cc

pub is_current_owner-OwnsRun :
    (ctx : GovernedActionContext) (db : Db)
    → is_current_owner ctx.run.id ctx.attempt.id db ≡ true
    → OwnsRun ctx db
unfolding is_current_owner
is_current_owner-OwnsRun ctx db h =
    Some-map _ _
      (λ r owns.
        let (named, runs, under, held) = four_parts _ _ _ _ owns in
        (
          (==_iff r.id ctx.run.id).0 named,
          status_eq_sound r.status running runs,
          is_id_sound ctx.attempt.id r.current_attempt_id under,
          Some-map _ _
              (λ a holds.
                let (its, on, lives, lasts) = four_parts _ _ _ _ holds in
                (
                  (==_iff a.id ctx.attempt.id).0 its,
                  (==_iff a.run_id r.id).0 on,
                  is_active_sound a.state lives,
                  ltb→lt db.now a.lease_expires_at lasts,
                ))
              db.attempts (any-Some _ db.attempts held),
        ))
      db.runs (any-Some _ db.runs h)

module _ (ctx : GovernedActionContext) (spec : GovernedActionSpec) where
  pub assert_current_action_owner-owns :
      (db : Db) (a : Unit {0}) (db' : Db)
      → assert_current_action_owner ctx db ≡ ok (a, db')
      → OwnsRun ctx db'
  unfolding assert_current_action_owner
  assert_current_action_owner-owns db a db' h = is_current_owner-OwnsRun ctx db' (ground arith)

  assert_current_action_owner-OwnsRun :
      IsQuiet (in_tx (assert_current_action_owner ctx)) (λ _ w. OwnsRun ctx w.db)
  assert_current_action_owner-OwnsRun =
      in_tx-IsQuiet _ (λ _ w. OwnsRun ctx w.db)
        (λ db a w h. assert_current_action_owner-owns db a w.db h)

  module _ {A : Type 0} (R : A → World → Type 0) where
    pub deny_open-IsQuiet :
        (receipt : ToolReceiptRow) (fresh : Bool) (reason : String) (stage : Stage)
        → IsQuiet (deny_open {A = A} ctx spec receipt fresh reason stage) R
    unfolding deny_open
    deny_open-IsQuiet receipt fresh reason stage =
        if-IsQuiet R fresh _ _ (end_undispatched-IsQuiet ctx spec R receipt.id reason stage)
          (end_denied-IsQuiet ctx spec R reason stage)

  judge_grant-IsQuiet :
      (receipt : ToolReceiptRow) (fresh still : Bool)
      → IsQuiet (judge_grant ctx spec receipt fresh still) Anything
  unfolding judge_grant
  judge_grant-IsQuiet receipt fresh true = done-IsQuiet Anything tt (λ w. tt)
  judge_grant-IsQuiet receipt fresh false = deny_open-IsQuiet Anything receipt fresh _ policy

  check_grant-IsQuiet :
      (receipt : ToolReceiptRow) (fresh : Bool) (usable : Option CapabilityGrantRow)
      → IsQuiet (check_grant ctx spec receipt fresh usable) Anything
  unfolding check_grant
  check_grant-IsQuiet receipt fresh none = done-IsQuiet Anything tt (λ w. tt)
  check_grant-IsQuiet receipt fresh (some g) =
      follows Anything _ _ (tx_is_quiet _) (judge_grant-IsQuiet receipt fresh)

  module _ (key : ℕ) (receipt : ToolReceiptRow) (fresh : Bool) where
    judge_status-IsQuiet :
        (row : ApprovalRow) (status : ApprovalStatus)
        → IsQuiet (judge_status ctx spec key receipt fresh row status) Anything
    unfolding judge_status
    judge_status-IsQuiet row ApprovalStatus.approved = done-IsQuiet Anything tt (λ w. tt)
    judge_status-IsQuiet row ApprovalStatus.expired =
        request_fresh_approval-IsQuiet ctx spec Anything key (some receipt.id)
    judge_status-IsQuiet row ApprovalStatus.denied =
        deny_open-IsQuiet Anything receipt fresh _ approval
    judge_status-IsQuiet row ApprovalStatus.pending =
        deny_open-IsQuiet Anything receipt fresh _ approval

    judge_final-IsQuiet :
        (locked : Option ApprovalRow)
        → IsQuiet (judge_final ctx spec key receipt fresh locked) Anything
    unfolding judge_final
    judge_final-IsQuiet none = deny_open-IsQuiet Anything receipt fresh _ approval
    judge_final-IsQuiet (some row) = judge_status-IsQuiet row row.status

    check_final_approval-IsQuiet :
        (usable : Option CapabilityGrantRow) (approval_id : Option ℕ)
        → IsQuiet (check_final_approval ctx spec key receipt fresh usable approval_id) Anything
    unfolding check_final_approval
    check_final_approval-IsQuiet usable none = done-IsQuiet Anything tt (λ w. tt)
    check_final_approval-IsQuiet usable (some id) =
        if-IsQuiet Anything (needs_approval usable) _ _
          (follows Anything _ _ (tx_is_quiet _) judge_final-IsQuiet)
          (done-IsQuiet Anything tt (λ w. tt))

  pub last_checks-IsQuiet :
      (key : ℕ) (receipt : ToolReceiptRow) (fresh : Bool) (usable : Option CapabilityGrantRow)
      (approval_id : Option ℕ)
      → IsQuiet
          (last_checks ctx spec key receipt fresh usable approval_id)
          (λ _ w. OwnsRun ctx w.db)
  unfolding last_checks
  last_checks-IsQuiet key receipt fresh usable approval_id = follows _ _ _ (tx_is_quiet _) (λ _.
      follows _ _ _ (look_is_quiet spec.before_dispatch) (λ hook.
        follows _ _ _ (rethrow_is_quiet hook) (λ _.
          follows _ _ _ (check_grant-IsQuiet receipt fresh usable) (λ _.
            follows _ _ _ (check_final_approval-IsQuiet key receipt fresh usable approval_id)
              (λ _. assert_current_action_owner-OwnsRun)))))
