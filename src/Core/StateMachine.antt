-- ===== src/Core/StateMachine.antt =====
-- src/core/stateMachine.ts: the table of legal transitions.
pub mod Graph
use managed_agents_runtime.Prelude.{◌≡◌, sym, arith, Bool, true, false, List, [], ◌∷◌, any}
use managed_agents_runtime.Core.Types.{
  RunStatus, created, resolving, queued, starting, running, waiting_approval, waiting_signal,
  waiting_children, sleeping, suspended, retry_pending, verifying, completed, failed, cancelled,
  status_eq, status_eq_sound,
}

-- `TRANSITIONS`.
abbrev pub transitions : RunStatus → List RunStatus
transitions created = resolving ∷ failed ∷ cancelled ∷ []
transitions resolving = queued ∷ failed ∷ cancelled ∷ []
transitions queued = starting ∷ failed ∷ cancelled ∷ []
transitions starting = running ∷ queued ∷ retry_pending ∷ failed ∷ cancelled ∷ []
transitions running =
    waiting_approval ∷ waiting_signal ∷ waiting_children ∷ retry_pending ∷ verifying ∷ queued
    ∷ failed ∷ cancelled ∷ []
transitions waiting_approval = queued ∷ failed ∷ cancelled ∷ []
transitions waiting_signal = queued ∷ failed ∷ cancelled ∷ []
transitions waiting_children = queued ∷ failed ∷ cancelled ∷ []
transitions sleeping = queued ∷ failed ∷ cancelled ∷ []
transitions suspended = queued ∷ failed ∷ cancelled ∷ []
transitions retry_pending = queued ∷ failed ∷ cancelled ∷ []
transitions verifying = completed ∷ running ∷ queued ∷ failed ∷ cancelled ∷ []
transitions completed = []
transitions failed = []
transitions cancelled = []

-- `statuses.includes(status)`.
abbrev pub includes : List RunStatus → RunStatus → Bool
includes statuses status = any (λ s. status_eq s status) statuses

abbrev pub is_transition_allowed : RunStatus → RunStatus → Bool
is_transition_allowed from to = includes (transitions from) to

abbrev is_empty : List RunStatus → Bool
is_empty [] = true
is_empty _ = false

abbrev pub is_terminal : RunStatus → Bool
is_terminal status = is_empty (transitions status)

pub includes_one : (s t : RunStatus) → includes (s ∷ []) t ≡ true → t ≡ s
includes_one s t h = sym (status_eq_sound s t (ground arith))
