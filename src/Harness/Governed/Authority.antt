-- ===== src/Harness/Governed/Authority.antt =====
-- The middle of `executeGovernedActionFenced` in src/harness/governedAction.ts: the grant that
-- allows the action and the connector's validation. The receipt of an earlier execution is pending
-- where there is one.
use Prim.Native.String.{◌++◌}
use managed_agents_runtime.Prelude.{
  ℕ, String, Bool, true, false, not, ◌&&◌, ◌||◌, List, ◌∷◌, [], map, Option, none, some,
  if◌then◌else◌, filter,
}
use mathlib.Core.List.{◌++◌ as append}
use managed_agents_runtime.Store.Rows.{Text, text_eq, CapabilityGrantRow, ToolReceiptRow}
use managed_agents_runtime.Store.Grants.{is_unexpired, has_calls_left}
use managed_agents_runtime.Store.Grants.Pattern.{pattern_matches}
use managed_agents_runtime.Transition.{is_none}
use managed_agents_runtime.Harness.Governed.{
  Fx, done, Validation, valid, invalid, ValidationInput, GovernedActionSpec, GovernedActionContext,
  codes,
}
use managed_agents_runtime.Harness.Governed.Audit.{validation, policy, Stage}
use managed_agents_runtime.Harness.Governed.Recovery.{end_uncertain, end_undispatched, end_denied}

-- `if (priorOutcomeKnownAbsent && existing)` the receipt fails with the denial, else only the denial
-- is recorded.
unfoldable pub deny :
    {A : Type 0}
    → GovernedActionContext
    → GovernedActionSpec
    → Option ToolReceiptRow
    → Bool
    → String
    → Stage
    → Fx A
deny ctx spec (some existing) true reason stage = end_undispatched ctx spec existing.id reason stage
deny ctx spec (some existing) false reason stage = end_denied ctx spec reason stage
deny ctx spec none absent reason stage = end_denied ctx spec reason stage

unfoldable pub declared_grants :
    GovernedActionSpec → List CapabilityGrantRow → List CapabilityGrantRow
declared_grants spec = filter (λ g.
    pattern_matches g.action_pattern (codes spec.action)
    && pattern_matches g.resource_pattern (codes spec.resource))

-- The sort is stable and compares truth values: the exact grants go first.
abbrev prefer_exact : Text → List CapabilityGrantRow → List CapabilityGrantRow
prefer_exact resource grants =
    append (filter (λ g. text_eq g.resource_pattern resource) grants)
      (filter (λ g. not (text_eq g.resource_pattern resource)) grants)

-- `clock` is when the query read the grants, `pending` is `pendingRecovery`.
unfoldable pub usable_grants :
    GovernedActionSpec → ℕ → Bool → List CapabilityGrantRow → List CapabilityGrantRow
usable_grants spec clock pending declared =
    let usable =
      filter (λ g. is_unexpired clock g.expires_at && (pending || has_calls_left g g.max_calls))
        declared in
    if spec.prefer_exact_resource_grant then prefer_exact (codes spec.resource) usable else usable

abbrev has_any : List CapabilityGrantRow → Bool
has_any [] = false
has_any (g ∷ rest) = true

unfoldable pub judge_validation :
    GovernedActionContext
    → GovernedActionSpec
    → Option ToolReceiptRow
    → Bool
    → Validation
    → Fx (Unit {0})
judge_validation ctx spec existing absent valid = done tt
judge_validation ctx spec existing absent (invalid reason) =
    deny ctx spec existing absent reason validation

-- `spec.validate?.(…)`: without the hook the action is valid.
unfoldable pub ask_validation :
    Option (ValidationInput → Validation)
    → List CapabilityGrantRow
    → List CapabilityGrantRow
    → Validation
ask_validation none declared usable = valid
ask_validation (some validate) declared usable = validate (record {
  has_declared_grant = has_any declared;
  declared_grant_resource_patterns = map (λ g. g.resource_pattern) declared;
  usable_grant_resource_patterns = map (λ g. g.resource_pattern) usable;
})

unfoldable pub validate_action :
    GovernedActionContext
    → GovernedActionSpec
    → Option ToolReceiptRow
    → Bool
    → List CapabilityGrantRow
    → List CapabilityGrantRow
    → Fx (Unit {0})
unfolding judge_validation ask_validation
validate_action ctx spec existing absent declared usable =
    judge_validation ctx spec existing absent (ask_validation spec.validate declared usable)

-- No grant is usable: what has been dispatched already may not be denied.
unfoldable pub refuse_ungranted :
    {A : Type 0}
    → GovernedActionContext
    → GovernedActionSpec
    → Option ToolReceiptRow
    → Bool
    → String
    → Fx A
refuse_ungranted ctx spec (some existing) true reason =
    end_undispatched ctx spec existing.id reason policy
refuse_ungranted ctx spec (some existing) false reason = end_uncertain ctx spec existing.id reason
refuse_ungranted ctx spec none absent reason = end_denied ctx spec reason policy

unfoldable pub check_policy :
    GovernedActionContext
    → GovernedActionSpec
    → Option ToolReceiptRow
    → Bool
    → Option CapabilityGrantRow
    → Fx (Unit {0})
unfolding refuse_ungranted
check_policy ctx spec existing absent usable =
    if spec.require_grant && is_none usable
    then refuse_ungranted ctx spec existing absent
        ("no capability grant allows " ++ spec.action ++ " on " ++ spec.resource)
    else done tt
