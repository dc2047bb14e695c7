-- ===== src/Harness/Governed/Approved.antt =====
-- None of the stages of src/harness/governedAction.ts between the receipt of an earlier execution and
-- its own makes the call; what the policy and the approval leave.
use managed_agents_runtime.Prelude.{
  ℕ, ◌≡◌, refl, Bool, false, ◌&&◌, List, Option, none, some, Bool-cases, inl, inr,
}
use managed_agents_runtime.Store.Rows.{
  CapabilityGrantRow, ApprovalStatus, ApprovalRow, ToolReceiptRow,
}
use managed_agents_runtime.Store.Database.{Result, ok, err}
use managed_agents_runtime.Transition.{is_none}
use managed_agents_runtime.Harness.Governed.{
  World, Validation, valid, invalid, GovernedActionSpec, GovernedActionContext,
}
use managed_agents_runtime.Harness.Governed.Audit.{approval}
use managed_agents_runtime.Harness.Governed.Authority.{
  judge_validation, validate_action, check_policy,
}
use managed_agents_runtime.Harness.Governed.Approval.{
  judge_approval, judge_locked, check_approval, check_found, require_approval, needs_approval,
  approve_action, use_credential, resolve_with, resolve_credential, status_of, judge_again,
  recheck_approval, stored_approval, find_last,
}
use managed_agents_runtime.Harness.Governed.Effects.{
  IsQuiet, Anything, done-IsQuiet, return-IsQuiet, throw-IsQuiet, if-IsQuiet, query-IsQuiet,
}
use managed_agents_runtime.Harness.Governed.Quiet.{
  follows, tx_is_quiet, look_is_quiet, request_fresh_approval-IsQuiet, deny-IsQuiet,
  renew_or_deny-IsQuiet, refuse_ungranted-IsQuiet,
}

-- An approval is named where one is asked for.
abbrev pub IsNamed : Option CapabilityGrantRow → Option ℕ → Type 0
IsNamed usable approval_id = (needs_approval usable && is_none approval_id) ≡ false

module _ (ctx : GovernedActionContext) (spec : GovernedActionSpec) where
  pub judge_validation-IsQuiet :
      (existing : Option ToolReceiptRow) (absent : Bool) (v : Validation)
      → IsQuiet (judge_validation ctx spec existing absent v) Anything
  unfolding judge_validation
  judge_validation-IsQuiet existing absent valid = done-IsQuiet Anything tt (λ w. tt)
  judge_validation-IsQuiet existing absent (invalid reason) =
      deny-IsQuiet ctx spec Anything existing absent reason _

  pub validate_action-IsQuiet :
      (existing : Option ToolReceiptRow) (absent : Bool) (declared usable : List CapabilityGrantRow)
      → IsQuiet (validate_action ctx spec existing absent declared usable) Anything
  unfolding validate_action
  validate_action-IsQuiet existing absent declared usable =
      judge_validation-IsQuiet existing absent _

  pub check_policy-IsQuiet :
      (existing : Option ToolReceiptRow) (absent : Bool) (usable : Option CapabilityGrantRow)
      → IsQuiet
          (check_policy ctx spec existing absent usable)
          (λ _ _. (spec.require_grant && is_none usable) ≡ false)
  unfolding check_policy
  check_policy-IsQuiet existing absent usable =
      elim (Bool-cases (spec.require_grant && is_none usable)) [
        | inl lacks ↦ rw lacks (refuse_ungranted-IsQuiet ctx spec _ existing absent _)
        | inr has ↦ rw has (done-IsQuiet _ tt (λ w. refl))
      ]

  judge_approval-IsQuiet :
      (key : ℕ) (existing : Option ToolReceiptRow) (absent : Bool) (row : ApprovalRow)
      (status : ApprovalStatus)
      → IsQuiet (judge_approval ctx spec key existing absent row status) Anything
  unfolding judge_approval
  judge_approval-IsQuiet key existing absent row ApprovalStatus.approved =
      done-IsQuiet Anything tt (λ w. tt)
  judge_approval-IsQuiet key existing absent row ApprovalStatus.denied =
      deny-IsQuiet ctx spec Anything existing absent _ approval
  judge_approval-IsQuiet key existing absent row ApprovalStatus.expired =
      renew_or_deny-IsQuiet ctx spec Anything key existing _
  judge_approval-IsQuiet key existing absent row ApprovalStatus.pending =
      return-IsQuiet Anything _ tt

  judge_locked-IsQuiet :
      (key : ℕ) (existing : Option ToolReceiptRow) (absent : Bool) (locked : Option ApprovalRow)
      → IsQuiet (judge_locked ctx spec key existing absent locked) Anything
  unfolding judge_locked
  judge_locked-IsQuiet key existing absent none =
      renew_or_deny-IsQuiet ctx spec Anything key existing _
  judge_locked-IsQuiet key existing absent (some row) =
      judge_approval-IsQuiet key existing absent row row.status

  abbrev IsSome : Option ℕ → World → Type 0
  IsSome o w = is_none o ≡ false

  check_approval-IsQuiet :
      (key : ℕ) (existing : Option ToolReceiptRow) (absent : Bool) (id : ℕ)
      → IsQuiet (check_approval ctx spec key existing absent id) IsSome
  unfolding check_approval
  check_approval-IsQuiet key existing absent id = follows IsSome _ _ (tx_is_quiet _) (λ row.
      follows IsSome _ _ (judge_locked-IsQuiet key existing absent row)
        (λ _. done-IsQuiet IsSome (some id) (λ w. refl)))

  check_found-IsQuiet :
      (key : ℕ) (existing : Option ToolReceiptRow) (absent : Bool) (found : Option ApprovalRow)
      → IsQuiet (check_found ctx spec key existing absent found) IsSome
  unfolding check_found
  check_found-IsQuiet key existing absent none =
      request_fresh_approval-IsQuiet ctx spec IsSome key _
  check_found-IsQuiet key existing absent (some row) =
      check_approval-IsQuiet key existing absent row.id

  require_approval-IsQuiet :
      (key : ℕ) (existing : Option ToolReceiptRow) (absent : Bool) (stored : Option ℕ)
      → IsQuiet (require_approval ctx spec key existing absent stored) IsSome
  unfolding require_approval
  require_approval-IsQuiet key existing absent none =
      follows IsSome _ _ (query-IsQuiet Anything _ (λ w. tt))
        (λ approvals. check_found-IsQuiet key existing absent (find_last key approvals))
  require_approval-IsQuiet key existing absent (some id) =
      check_approval-IsQuiet key existing absent id

  -- Past this stage an approval is named wherever the grant asks for one.
  pub approve_action-IsQuiet :
      (key : ℕ) (existing : Option ToolReceiptRow) (absent : Bool)
      (usable : Option CapabilityGrantRow)
      → IsQuiet (approve_action ctx spec key existing absent usable) (λ id w. IsNamed usable id)
  unfolding approve_action
  approve_action-IsQuiet key existing absent usable = elim (Bool-cases (needs_approval usable)) [
    | inl needs ↦ rw needs (require_approval-IsQuiet key existing absent (stored_approval existing))
    | inr free ↦ rw free (done-IsQuiet _ (stored_approval existing) (λ w. refl))
  ]

  use_credential-IsQuiet : (r : Result (Option ℕ)) → IsQuiet (use_credential ctx spec r) Anything
  unfolding use_credential
  use_credential-IsQuiet (ok c) = done-IsQuiet Anything c (λ w. tt)
  use_credential-IsQuiet (err e) =
      follows Anything _ _ (tx_is_quiet _) (λ _. throw-IsQuiet Anything _)

  resolve_with-IsQuiet :
      (approval_id : Option ℕ) (broker : Option (Option ℕ → World → Result (Option ℕ)))
      → IsQuiet (resolve_with ctx spec approval_id broker) Anything
  unfolding resolve_with
  resolve_with-IsQuiet approval_id none = done-IsQuiet Anything none (λ w. tt)
  resolve_with-IsQuiet approval_id (some resolve) =
      follows Anything _ _ (look_is_quiet (resolve approval_id)) use_credential-IsQuiet

  pub resolve_credential-IsQuiet :
      (approval_id : Option ℕ) → IsQuiet (resolve_credential ctx spec approval_id) Anything
  unfolding resolve_credential
  resolve_credential-IsQuiet approval_id = resolve_with-IsQuiet approval_id ctx.credentials

  judge_again-IsQuiet :
      (key : ℕ) (existing : Option ToolReceiptRow) (absent : Bool) (status : Option ApprovalStatus)
      → IsQuiet (judge_again ctx spec key existing absent status) Anything
  unfolding judge_again
  judge_again-IsQuiet key existing absent (some ApprovalStatus.approved) =
      done-IsQuiet Anything tt (λ w. tt)
  judge_again-IsQuiet key (some r) absent (some ApprovalStatus.expired) =
      request_fresh_approval-IsQuiet ctx spec Anything key (some r.id)
  judge_again-IsQuiet key none absent (some ApprovalStatus.expired) =
      deny-IsQuiet ctx spec Anything none absent _ approval
  judge_again-IsQuiet key existing absent none =
      deny-IsQuiet ctx spec Anything existing absent _ approval
  judge_again-IsQuiet key existing absent (some ApprovalStatus.denied) =
      deny-IsQuiet ctx spec Anything existing absent _ approval
  judge_again-IsQuiet key existing absent (some ApprovalStatus.pending) =
      deny-IsQuiet ctx spec Anything existing absent _ approval

  pub recheck_approval-IsQuiet :
      (key : ℕ) (existing : Option ToolReceiptRow) (absent : Bool)
      (usable : Option CapabilityGrantRow) (approval_id : Option ℕ)
      → IsQuiet (recheck_approval ctx spec key existing absent usable approval_id) Anything
  unfolding recheck_approval
  recheck_approval-IsQuiet key existing absent usable none = done-IsQuiet Anything tt (λ w. tt)
  recheck_approval-IsQuiet key existing absent usable (some id) =
      if-IsQuiet Anything (needs_approval usable) _ _
        (follows Anything _ _ (tx_is_quiet _)
          (λ row. judge_again-IsQuiet key existing absent (status_of row)))
        (done-IsQuiet Anything tt (λ w. tt))
