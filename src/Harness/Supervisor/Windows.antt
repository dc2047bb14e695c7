-- ===== src/Harness/Supervisor/Windows.antt =====
-- The rolling windows of src/harness/supervisor.ts.
use managed_agents_runtime.Prelude.{
  ℕ, ◌-◌, ◌≤◌, String, Bool, List, ◌∷◌, [], ◌++◌, arith, ltb, length, length-drop, Bool-cases, inl,
  inr,
}
use managed_agents_runtime.Harness.Supervisor.{
  SupervisorThresholds, SupervisorInput, push, evaluate,
}

length-push {ℓ} : {A : Type ℓ} (arr : List A) (v : A) (cap : ℕ) → length (push arr v cap) ≤ cap
unfolding push
length-push arr v cap = elim (Bool-cases (ltb cap (length (arr ++ v ∷ [])))) [
  | inl over ↦ rw over (omega (arith, length-drop (length (arr ++ v ∷ []) - cap) (arr ++ v ∷ [])))
  | inr fits ↦ rw fits (ground arith)
]

-- Each evaluation leaves both windows within the bound of the thresholds, whatever they were before:
-- the state that a checkpoint holds does not grow with the run.
pub evaluate-windows :
    (lower : String → String) (includes : String → String → Bool) (input : SupervisorInput)
    (t : SupervisorThresholds)
    → (length (evaluate lower includes input t).state.action_window ≤ t.window)
      × (length (evaluate lower includes input t).state.progress_window ≤ t.window)
unfolding evaluate
evaluate-windows lower includes input t = (length-push _ _ t.window, length-push _ _ t.window)
