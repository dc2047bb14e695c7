-- ===== src/Tests/Harness.antt =====
-- The supervisor, the limits of model calls and the rate limiter on small inputs.
use managed_agents_runtime.Prelude.{
  ℕ, ◌+◌, ◌-◌, ◌*◌, ◌≡◌, ◌≤◌, refl, String, Bool, true, false, List, ◌∷◌, [], none, some, arith,
}
use managed_agents_runtime.Harness.Supervisor.{
  SupervisorInput, SupervisorState, default_thresholds, initial_supervisor_state, evaluate, ladder,
  detect, push, loop_detections, stagnation_detections, context_detections, budget_detections,
  trailing_repeats, repeats_of,
}
use managed_agents_runtime.Harness.Supervisor.Ladder.{
  terminates, IsStuckThrough, stuck_run-terminates,
}
use managed_agents_runtime.Harness.Limits.{
  positive, normalize_requested_max, ModelInvocationLimit, limit_model_invocation, or_default,
  max_safe_integer,
}
use managed_agents_runtime.Harness.Limits.Bounds.{limit_model_invocation-within}
use managed_agents_runtime.Api.RateLimit.Starvation.{passes_on_retry, pg_check_starves}
use managed_agents_runtime.Api.RateLimit.{upsert, SharedBucket, pg_check, Bucket, refill, spend}
use managed_agents_runtime.Api.RateLimit.Window.{granted, last_time, granted-within}

abbrev same_text : String → String
same_text s = s

abbrev never_in : String → String → Bool
never_in s t = false

-- The same action again and again, three times of which are in the window already.
abbrev looping : SupervisorState
looping = record initial_supervisor_state { action_window = "ls" ∷ "ls" ∷ "ls" ∷ [] }

abbrev step_of : ℕ → SupervisorInput
step_of step = record {
  state = looping;
  proposed_signature = some "ls";
  proposed_targets = [];
  completed_items = [];
  remaining_items = 2;
  step = step;
  max_steps = 50;
  tokens_used = 0;
  token_budget = none;
}

abbrev four_steps : List SupervisorInput
four_steps = step_of 4 ∷ step_of 5 ∷ step_of 6 ∷ step_of 7 ∷ []

stuck : IsStuckThrough same_text never_in default_thresholds looping four_steps
unfolding evaluate ladder detect push loop_detections stagnation_detections context_detections
    budget_detections trailing_repeats repeats_of
stuck = (refl, (refl, (refl, (refl, tt))))

stuck_run-terminates_example :
    terminates same_text never_in default_thresholds looping four_steps ≡ true
stuck_run-terminates_example =
    stuck_run-terminates same_text never_in default_thresholds four_steps looping stuck
      (omega arith)

abbrev limit_one : ModelInvocationLimit
limit_one = record { max_tokens = 50; remaining = some 600; input_token_ceiling = 300 }

limits : limit_model_invocation (some 1000) 400 300 (positive 50) 4096 ≡ some limit_one
unfolding limit_model_invocation normalize_requested_max
limits = refl

limit_model_invocation-within_example :
    (400 + 300 + 50 ≤ 1000)
    × (50 ≤ or_default (normalize_requested_max (positive 50)) 4096)
    × (50 ≤ max_safe_integer)
    × (limit_one.input_token_ceiling ≡ 300)
    × (some 600 ≡ some (1000 - 400))
limit_model_invocation-within_example =
    limit_model_invocation-within 1000 400 300 (positive 50) 4096 limit_one limits

abbrev empty_bucket : Bucket
empty_bucket = record { tokens = 200; last = 100 }

granted-within_example :
    1000 * granted 5 2 empty_bucket (300 ∷ 900 ∷ 4000 ∷ [])
    ≤ 1000 * 5 + (last_time 5 2 300 (900 ∷ 4000 ∷ []) - 300) * 2
granted-within_example =
    granted-within 5 2 300 (900 ∷ 4000 ∷ []) empty_bucket (omega arith)
      (omega arith, (omega arith, tt))

refuses : (spend 5 2 150 empty_bucket).0.allowed ≡ false
unfolding spend refill
refuses = refl

abbrev drained : SharedBucket
drained = record { balance = 400; updated_at = 0 }

drained_refuses : (pg_check 5 1 200 (some drained)).0.allowed ≡ false
unfolding pg_check upsert
drained_refuses = refl

pg_check_starves_example : passes_on_retry 5 1 60 200 (pg_check 5 1 200 (some drained)).1 ≡ 0
pg_check_starves_example = pg_check_starves 60 5 200 (some drained) drained_refuses
