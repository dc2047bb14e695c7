-- ===== src/Harness/Supervisor/Ladder.antt =====
-- The escalation ladder of src/harness/supervisor.ts over whole runs: an epoch evaluates step after
-- step and hands each result's state to the next.
use managed_agents_runtime.Prelude.{
  ℕ, ◌+◌, ◌-◌, ◌≤◌, ◌<◌, ◌≡◌, String, Bool, true, false, ◌||◌, List, ◌∷◌, [], arith, if◌then◌else◌,
  leb, length, any, Bool-cases, inl, inr,
}
use managed_agents_runtime.Harness.Supervisor.{
  SupervisorThresholds, SupervisorState, SupervisorInput, Directive, escalate_model, terminate,
  is_stuck, ladder, detect, evaluate,
}

abbrev is_terminate : Directive → Bool
is_terminate (terminate reason) = true
is_terminate _ = false

abbrev is_escalation : Directive → ℕ
is_escalation (escalate_model note) = 1
is_escalation _ = 0

module _ (lower : String → String) (includes : String → String → Bool)
    (t : SupervisorThresholds) where
  -- What the epoch evaluates when the state is `s`.
  abbrev at_state : SupervisorState → SupervisorInput → SupervisorInput
  at_state s input = record input { state = s }

  abbrev next_state : SupervisorState → SupervisorInput → SupervisorState
  next_state s input = (evaluate lower includes (at_state s input) t).state

  abbrev directive_of : SupervisorState → SupervisorInput → Directive
  directive_of s input = (evaluate lower includes (at_state s input) t).directive

  -- Some step of the run ends it.
  abbrev pub terminates : SupervisorState → List SupervisorInput → Bool
  terminates s [] = false
  terminates s (input ∷ inputs) =
      is_terminate (directive_of s input) || terminates (next_state s input) inputs

  -- A step is stuck if some detector other than `budget_low` fires.
  abbrev stuck_at : SupervisorState → SupervisorInput → Bool
  stuck_at s input = any is_stuck (detect lower includes (at_state s input) t)

  abbrev pub IsStuckThrough : SupervisorState → List SupervisorInput → Type 0
  IsStuckThrough s [] = Unit
  IsStuckThrough s (input ∷ inputs) =
      (stuck_at s input ≡ true) × IsStuckThrough (next_state s input) inputs

  abbrev pub escalations : SupervisorState → List SupervisorInput → ℕ
  escalations s [] = 0
  escalations s (input ∷ inputs) =
      is_escalation (directive_of s input) + escalations (next_state s input) inputs

  -- The stuck steps that the ladder still has before it ends the run.
  abbrev rungs : SupervisorState → ℕ
  rungs s = (if leb 1 s.recoveries then 0 else 1) + (t.max_escalations - s.escalation_level)

  step_down :
      (s : SupervisorState) (input : SupervisorInput)
      → stuck_at s input ≡ true
      → is_terminate (directive_of s input) ≡ false
      → rungs (next_state s input) < rungs s
  unfolding evaluate ladder
  step_down s input stuck on = ground arith

  -- A stuck run outlasts no more steps than it has rungs left.
  stuck_run-ends :
      (inputs : List SupervisorInput) (s : SupervisorState)
      → IsStuckThrough s inputs
      → rungs s < length inputs
      → terminates s inputs ≡ true
  stuck_run-ends [] s stuck long = absurd (omega arith)
  stuck_run-ends (input ∷ inputs) s (stuck, more) long =
      elim (Bool-cases (is_terminate (directive_of s input))) [
        | inl ends ↦ rw ends
        | inr on ↦
            let down = step_down s input stuck on in
            rw on (stuck_run-ends inputs (next_state s input) more (omega (arith, down)))
      ]

  -- A run that is stuck in each of more than `max_escalations + 1` consecutive steps is ended by one
  -- of them, whatever state it was in before.
  pub stuck_run-terminates :
      (inputs : List SupervisorInput) (s : SupervisorState)
      → IsStuckThrough s inputs
      → t.max_escalations + 1 < length inputs
      → terminates s inputs ≡ true
  stuck_run-terminates inputs s stuck long = stuck_run-ends inputs s stuck (ground arith)

  step_level :
      (s : SupervisorState) (input : SupervisorInput)
      → s.escalation_level ≤ t.max_escalations
      → ((next_state s input).escalation_level
          ≡ s.escalation_level + is_escalation (directive_of s input))
        × ((next_state s input).escalation_level ≤ t.max_escalations)
  unfolding evaluate ladder
  step_level s input low = (ground arith, ground arith)

  -- Whatever a run does, the model is escalated no more often than the thresholds allow.
  pub escalations-le :
      (inputs : List SupervisorInput) (s : SupervisorState)
      → s.escalation_level ≤ t.max_escalations
      → s.escalation_level + escalations s inputs ≤ t.max_escalations
  escalations-le [] s low = omega arith
  escalations-le (input ∷ inputs) s low =
      let (counted, still) = step_level s input low in
      omega (arith, counted, escalations-le inputs (next_state s input) still)
