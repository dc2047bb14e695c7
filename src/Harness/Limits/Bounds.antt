-- ===== src/Harness/Limits/Bounds.antt =====
-- What src/harness/limits.ts promises of a model call.
use managed_agents_runtime.Prelude.{ℕ, ◌+◌, ◌-◌, ◌≤◌, ◌≡◌, ◌↔◌, none, some, arith}
use managed_agents_runtime.Harness.Limits.{
  Requested, normalize_requested_max, ModelInvocationLimit, or_default, limit_model_invocation,
  max_safe_integer,
}

-- Under a token budget a call is refused exactly if the tokens used and the prompt's ceiling leave no
-- room for output.
pub limit_model_invocation-none_iff :
    (budget used ceiling : ℕ) (requested : Requested) (default_max : ℕ)
    → (limit_model_invocation (some budget) used ceiling requested default_max ≡ none)
      ↔ (budget ≤ used + ceiling)
unfolding limit_model_invocation
limit_model_invocation-none_iff budget used ceiling requested default_max = ground arith

-- An allowed call cannot exceed the budget: the tokens used, the prompt's ceiling and the output
-- that the provider may produce fit it together. Nor is more asked for than was requested, or than
-- a JavaScript number holds exactly.
pub limit_model_invocation-within :
    (budget used ceiling : ℕ) (requested : Requested) (default_max : ℕ) (l : ModelInvocationLimit)
    → limit_model_invocation (some budget) used ceiling requested default_max ≡ some l
    → (used + ceiling + l.max_tokens ≤ budget)
      × (l.max_tokens ≤ or_default (normalize_requested_max requested) default_max)
      × (l.max_tokens ≤ max_safe_integer)
      × (l.input_token_ceiling ≡ ceiling)
      × (l.remaining ≡ some (budget - used))
unfolding limit_model_invocation
limit_model_invocation-within budget used ceiling requested default_max l h = ground arith
