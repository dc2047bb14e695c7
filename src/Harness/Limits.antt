-- ===== src/Harness/Limits.antt =====
-- src/harness/limits.ts: the token budget of a run as a ceiling on each model call.
pub mod Bounds
use managed_agents_runtime.Prelude.{
  ℕ, ◌+◌, ◌-◌, ◌≤◌, ◌<◌, Bool, true, false, List, Option, none, some, if◌then◌else◌, leb, ltb, row,
}
use managed_agents_runtime.Core.Types.{RunRow}
use managed_agents_runtime.Store.Database.{Db}

exceeds : Option ℕ → ℕ → Bool
exceeds none used = false
exceeds (some budget) used = leb budget used

budget_of : Option RunRow → Bool
unfolding exceeds
budget_of none = false
budget_of (some r) = exceeds r.token_budget r.tokens_used

unfoldable pub token_budget_exceeded : ℕ → Db → Bool
unfolding budget_of
token_budget_exceeded run_id db = budget_of (row RunRow.id run_id db.runs)

-- A number of JavaScript, as `normalizeRequestedMax` tells them apart; of a positive one the rounded
-- down value is kept.
pub data Requested : Type 0 where
  undefined not_finite not_positive : Requested
  positive : ℕ → Requested

unfoldable pub normalize_requested_max : Requested → Option ℕ
normalize_requested_max (positive floor) = some floor
normalize_requested_max undefined = none
normalize_requested_max not_finite = none
normalize_requested_max not_positive = none

pub record ModelInvocationLimit : Type 0 where
  pub max_tokens : ℕ
  pub remaining : Option ℕ
  pub input_token_ceiling : ℕ

abbrev pub max_safe_integer : ℕ
max_safe_integer = 9007199254740991

-- `a ?? b`.
abbrev pub or_default : Option ℕ → ℕ → ℕ
or_default none b = b
or_default (some a) b = a

-- `input_token_ceiling` is the byte length of the serialised prompt. `remaining - ceiling <= 0n` is a
-- test on integers, so it is written without the subtraction.
unfoldable pub limit_model_invocation :
    Option ℕ → ℕ → ℕ → Requested → ℕ → Option ModelInvocationLimit
unfolding normalize_requested_max
limit_model_invocation none tokens_used input_token_ceiling requested default_max = some (record {
  max_tokens = or_default (normalize_requested_max requested) default_max;
  remaining = none;
  input_token_ceiling = input_token_ceiling;
})
limit_model_invocation (some token_budget) tokens_used input_token_ceiling requested default_max =
    let output_capacity = token_budget - tokens_used - input_token_ceiling in
    let wanted = or_default (normalize_requested_max requested) default_max in
    let bounded = if ltb wanted output_capacity then wanted else output_capacity in
    let safe = if ltb max_safe_integer bounded then max_safe_integer else bounded in
    if leb token_budget (tokens_used + input_token_ceiling)
    then none
    else some (record {
      max_tokens = safe;
      remaining = some (token_budget - tokens_used);
      input_token_ceiling = input_token_ceiling;
    })
