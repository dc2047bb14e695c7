-- ===== src/Core/StateMachine/Graph.antt =====
-- What the table of src/core/stateMachine.ts says of whole lives of a run.
use managed_agents_runtime.Prelude.{◌≡◌, refl, ◌≢◌, ◌↔◌, true, false}
use managed_agents_runtime.Core.Types.{
  RunStatus, created, resolving, queued, starting, running, waiting_approval, waiting_signal,
  waiting_children, sleeping, suspended, retry_pending, verifying, completed, failed, cancelled,
}
use managed_agents_runtime.Core.StateMachine.{is_transition_allowed, is_terminal}

-- A life of a run: legal transitions, one after the other.
pub data Reaches (s : RunStatus) : RunStatus → Type 0 where
  here : Reaches s s
  next :
      {t : RunStatus} (u : RunStatus) → Reaches s t → is_transition_allowed t u ≡ true → Reaches s u

-- A status is terminal exactly if no transition leaves it, and it is not terminal exactly if a run
-- can fail from it, which is so exactly if a run can be cancelled from it.
pub is_terminal_iff :
    (s : RunStatus)
    → ((is_terminal s ≡ true) ↔ ((t : RunStatus) → is_transition_allowed s t ≡ false))
      × ((is_terminal s ≡ false) ↔ (is_transition_allowed s failed ≡ true))
      × ((is_terminal s ≡ false) ↔ (is_transition_allowed s cancelled ≡ true))
is_terminal_iff completed = ((λ _ t. refl, λ _. refl), (λ h. cc, λ h. cc), (λ h. cc, λ h. cc))
is_terminal_iff failed = ((λ _ t. refl, λ _. refl), (λ h. cc, λ h. cc), (λ h. cc, λ h. cc))
is_terminal_iff cancelled = ((λ _ t. refl, λ _. refl), (λ h. cc, λ h. cc), (λ h. cc, λ h. cc))
is_terminal_iff created =
    ((λ h. cc, λ h. cc (h failed)), (λ _. refl, λ _. refl), (λ _. refl, λ _. refl))
is_terminal_iff _ = ((λ h. cc, λ h. cc (h failed)), (λ _. refl, λ _. refl), (λ _. refl, λ _. refl))

abbrev IsLive : RunStatus → Type 0
IsLive s = (s ≢ sleeping) × (s ≢ suspended)

step-IsLive : (s t : RunStatus) → is_transition_allowed s t ≡ true → IsLive t
step-IsLive s sleeping h = absurd (inbound s h)
  where
    inbound : (s : RunStatus) → is_transition_allowed s sleeping ≡ true → ⊥
    inbound created h = cc
    inbound _ h = cc
step-IsLive s suspended h = absurd (inbound s h)
  where
    inbound : (s : RunStatus) → is_transition_allowed s suspended ≡ true → ⊥
    inbound created h = cc
    inbound _ h = cc
step-IsLive s created h = (λ e. cc, λ e. cc)
step-IsLive s _ h = (λ e. cc, λ e. cc)

reached-IsLive : (s : RunStatus) → Reaches created s → IsLive s
reached-IsLive s here = (λ e. cc, λ e. cc)
reached-IsLive s (next {t} u r h) = step-IsLive t u h

-- A new run can come to be in a status exactly if that is neither `SLEEPING` nor `SUSPENDED`.
pub reachable_iff : (s : RunStatus) → Reaches created s ↔ ((s ≢ sleeping) × (s ≢ suspended))
reachable_iff s = (reached-IsLive s, way s)
  where
    to_queued : Reaches created queued
    to_queued = next queued (next resolving here refl) refl

    to_running : Reaches created running
    to_running = next running (next starting to_queued refl) refl

    way : (s : RunStatus) → IsLive s → Reaches created s
    way created h = here
    way resolving h = next resolving here refl
    way queued h = to_queued
    way starting h = next starting to_queued refl
    way running h = to_running
    way waiting_approval h = next waiting_approval to_running refl
    way waiting_signal h = next waiting_signal to_running refl
    way waiting_children h = next waiting_children to_running refl
    way retry_pending h = next retry_pending to_running refl
    way verifying h = next verifying to_running refl
    way completed h = next completed (next verifying to_running refl) refl
    way failed h = next failed here refl
    way cancelled h = next cancelled here refl
    way sleeping h = absurd (h.0 refl)
    way suspended h = absurd (h.1 refl)
