-- ===== src/Harness/Supervisor.antt =====
-- src/harness/supervisor.ts: the pure evaluator of a run's own signals. Its fractions are exact
-- quotients here, where the source divides floating-point numbers, and a negative one is zero.
-- `toLowerCase` and `String.includes` are parameters.
pub mod Ladder
pub mod Windows
use managed_agents_runtime.Prelude.{
  ℕ, ◌+◌, ◌-◌, ◌*◌, String, Bool, true, false, not, ◌&&◌, ◌||◌, List, ◌∷◌, [], ◌++◌, Option, none,
  some, if◌then◌else◌, leb, ltb, ◌==◌, length, drop, filter, any, all, find, map, suc,
}
use mathlib.Core.List.{reverse}
use text.Mathlib.Text.{◌==◌ as str_eq}

-- `num / den`.
pub record Fraction : Type 0 where
  pub num : ℕ
  pub den : ℕ

pub record SupervisorThresholds : Type 0 where
  pub loop_threshold : ℕ
  pub stagnation_steps : ℕ
  pub window : ℕ
  pub budget_headroom : Fraction
  pub max_escalations : ℕ

abbrev pub default_thresholds : SupervisorThresholds
default_thresholds = record {
  loop_threshold = 3;
  stagnation_steps = 5;
  window = 8;
  budget_headroom = record { num = 15; den = 100 };
  max_escalations = 2;
}

pub record SupervisorState : Type 0 where
  pub action_window : List String
  pub progress_window : List ℕ
  pub escalation_level : ℕ
  pub recoveries : ℕ

abbrev pub initial_supervisor_state : SupervisorState
initial_supervisor_state = record {
  action_window = [];
  progress_window = [];
  escalation_level = 0;
  recoveries = 0;
}

pub record SupervisorInput : Type 0 where
  pub state : SupervisorState
  pub proposed_signature : Option String
  pub proposed_targets : List String
  pub completed_items : List String
  pub remaining_items : ℕ
  pub step : ℕ
  pub max_steps : ℕ
  pub tokens_used : ℕ
  pub token_budget : Option ℕ

pub data Basis : Type 0 where
  steps tokens : Basis

pub data Detection : Type 0 where
  loop : String → ℕ → Detection
  stagnation : ℕ → Detection
  context_loss : String → Detection
  budget_low : Fraction → Basis → Detection

-- A recovery note is its sentences and its tail; a budget note is the numbers that it prints: the
-- steps left, the token budget with the tokens used, and the items still to do.
pub data Note : Type 0 where
  recovery : List String → String → Note
  budget : ℕ → Option (ℕ × ℕ) → ℕ → Note

pub data Directive : Type 0 where
  continue : Directive
  recover : Note → Directive
  escalate_model : Note → Directive
  wind_down : Note → Directive
  terminate : String → Directive

pub record SupervisorResult : Type 0 where
  pub detections : List Detection
  pub directive : Directive
  pub state : SupervisorState

unfoldable pub push {ℓ} : {A : Type ℓ} → List A → A → ℕ → List A
push arr v cap =
    let next = arr ++ v ∷ [] in
    if ltb cap (length next) then drop (length next - cap) next else next

-- How many entries at the front are `last`.
unfoldable pub repeats_of : String → List String → ℕ
repeats_of last [] = 0
repeats_of last (x ∷ rest) = if str_eq x last then suc (repeats_of last rest) else 0

repeats_back : List String → ℕ
unfolding repeats_of
repeats_back [] = 0
repeats_back (last ∷ rest) = repeats_of last (last ∷ rest)

-- The loop from the end of the window.
unfoldable pub trailing_repeats : List String → ℕ
unfolding repeats_back
trailing_repeats window = repeats_back (reverse window)

or_empty : Option String → String
or_empty none = "∅"
or_empty (some s) = s

unfoldable pub loop_detections : String → List String → ℕ → List Detection
loop_detections signature action_window threshold =
    if not (str_eq signature "∅") && leb threshold (trailing_repeats action_window)
    then loop signature (trailing_repeats action_window) ∷ []
    else []

all_equal : List ℕ → Bool
all_equal [] = true
all_equal (c ∷ rest) = all (λ d. d == c) (c ∷ rest)

unfoldable pub stagnation_detections : List ℕ → ℕ → List Detection
unfolding all_equal
stagnation_detections progress_window stagnation_steps =
    if leb stagnation_steps (length progress_window)
      && all_equal (drop (length progress_window - stagnation_steps) progress_window)
    then stagnation stagnation_steps ∷ []
    else []

abbrev le_fraction : Fraction → Fraction → Bool
le_fraction a b = leb (a.num * b.den) (b.num * a.den)

abbrev lt_fraction : Fraction → Fraction → Bool
lt_fraction a b = ltb (a.num * b.den) (b.num * a.den)

abbrev one : Fraction
one = record { num = 1; den = 1 }

step_fraction : SupervisorInput → Fraction
step_fraction input =
    if ltb 0 input.max_steps
    then record { num = input.max_steps - input.step; den = input.max_steps }
    else one

token_fraction : Option ℕ → ℕ → Fraction
token_fraction none used = one
token_fraction (some limit) used =
    if ltb 0 limit then record { num = limit - used; den = limit } else one

unfoldable pub budget_detections : SupervisorInput → Fraction → List Detection
unfolding step_fraction token_fraction
budget_detections input headroom =
    let by_steps = step_fraction input in
    let by_tokens = token_fraction input.token_budget input.tokens_used in
    let basis = if le_fraction by_steps by_tokens then steps else tokens in
    let fraction = if le_fraction by_steps by_tokens then by_steps else by_tokens in
    if lt_fraction fraction headroom && ltb 0 input.remaining_items
    then budget_low fraction basis ∷ []
    else []

abbrev pub is_stuck : Detection → Bool
is_stuck (loop _ _) = true
is_stuck (stagnation _) = true
is_stuck (context_loss _) = true
is_stuck (budget_low _ _) = false

abbrev pub is_budget_low : Detection → Bool
is_budget_low (budget_low _ _) = true
is_budget_low _ = false

unfoldable pub terminal_reason : List Detection → String
terminal_reason (loop _ _ ∷ rest) = "loop_unrecovered"
terminal_reason (stagnation _ ∷ rest) = "stagnation_unrecovered"
terminal_reason _ = "context_loss_unrecovered"

is_loop : Detection → Bool
is_loop (loop _ _) = true
is_loop _ = false

is_stagnation : Detection → Bool
is_stagnation (stagnation _) = true
is_stagnation _ = false

is_context_loss : Detection → Bool
is_context_loss (context_loss _) = true
is_context_loss _ = false

sentence_if : Bool → String → List String
sentence_if b s = if b then s ∷ [] else []

unfoldable pub recovery_note : List Detection → Bool → Note
unfolding sentence_if is_loop is_stagnation is_context_loss
recovery_note stuck escalated =
    recovery
      (sentence_if (any is_loop stuck) "You are repeating the same action without effect."
        ++ sentence_if (any is_stagnation stuck)
            "Your progress ledger has not advanced for several steps."
        ++ sentence_if (any is_context_loss stuck)
            "You are redoing work your progress ledger already marks as completed.")
      (if escalated
        then "A stronger model is now assisting. Re-read your progress ledger, choose a genuinely different approach, and if the goal is already met call run_complete."
        else "Stop and re-read your progress ledger. Change your approach — do not repeat the previous action — and if the goal is already met call run_complete.")

tokens_left : Option ℕ → ℕ → Option (ℕ × ℕ)
tokens_left none used = none
tokens_left (some limit) used = some (limit, used)

unfoldable pub budget_note : SupervisorInput → Note
unfolding tokens_left
budget_note input =
    budget (input.max_steps - input.step) (tokens_left input.token_budget input.tokens_used)
      input.remaining_items

-- The ladder: the directive, the escalation level and the count of recoveries.
unfoldable pub ladder : List Detection → SupervisorInput → ℕ → Directive × ℕ × ℕ
ladder detections input max_escalations =
    let stuck = filter is_stuck detections in
    let level = input.state.escalation_level in
    let recoveries = input.state.recoveries in
    if any is_stuck detections
    then (if leb max_escalations level
        then (terminate (terminal_reason stuck), level, recoveries)
        else if leb 1 recoveries
        then (escalate_model (recovery_note stuck true), level + 1, recoveries + 1)
        else (recover (recovery_note stuck false), level, recoveries + 1))
    else if any is_budget_low detections
    then (wind_down (budget_note input), level, 0)
    else (continue, level, 0)

module _ (lower : String → String) (includes : String → String → Bool) where
  abbrev is_hit : String → String → Bool
  is_hit target c = not (str_eq c "") && (includes c target || includes target c)

  first_hit : List String → List String → Option String
  first_hit completed [] = none
  first_hit completed (target ∷ targets) =
      let later = first_hit completed targets in
      elim (find (is_hit (lower target)) completed) [ none ↦ later | some hit ↦ some hit ]

  context_of : Option String → List Detection
  context_of none = []
  context_of (some item) = context_loss item ∷ []

  unfoldable pub context_detections : List String → List String → List Detection
  unfolding first_hit context_of
  context_detections completed_items targets =
      context_of (first_hit (map lower completed_items) targets)

  -- What the four detectors find, in the order in which they run.
  unfoldable pub detect : SupervisorInput → SupervisorThresholds → List Detection
  unfolding or_empty
  detect input t =
      let signature = or_empty input.proposed_signature in
      loop_detections signature (push input.state.action_window signature t.window) t.loop_threshold
      ++ stagnation_detections
          (push input.state.progress_window (length input.completed_items) t.window)
          t.stagnation_steps
      ++ context_detections input.completed_items input.proposed_targets
      ++ budget_detections input t.budget_headroom

  unfoldable pub evaluate : SupervisorInput → SupervisorThresholds → SupervisorResult
  unfolding or_empty
  evaluate input t =
      let detections = detect input t in
      let (directive, level, recoveries) = ladder detections input t.max_escalations in
      record {
        detections = detections;
        directive = directive;
        state = record {
          action_window =
              push input.state.action_window (or_empty input.proposed_signature) t.window;
          progress_window =
              push input.state.progress_window (length input.completed_items) t.window;
          escalation_level = level;
          recoveries = recoveries;
        };
      }
