-- ===== src/Tests/Fence.antt =====
-- The permits of a pool of three connections, which five callers ask for.
use managed_agents_runtime.Prelude.{◌≡◌, ◌≤◌, refl, List, ◌∷◌, [], some, length}
use managed_agents_runtime.Harness.Admission.{
  first_admission, acquire_fence_admission, pass_on, release, Event, acquires, releases, on_event,
  admission_after,
}
use managed_agents_runtime.Harness.Admission.Queue.{
  take, drop, line_after, limit_of, admission_after-refines_line,
}

-- The latest first: 2 releases twice, and 9 has no permit.
abbrev events : List Event
events =
    releases 2 ∷ releases 9 ∷ releases 2 ∷ acquires 4 ∷ acquires 3 ∷ acquires 2 ∷ acquires 1 ∷ []

second_gone :
    ((admission_after (some 3) events).holding ≡ 1 ∷ 3 ∷ [])
    × ((admission_after (some 3) events).waiters ≡ 4 ∷ [])
unfolding admission_after first_admission on_event acquire_fence_admission release pass_on
second_gone = (refl, refl)

admission_after-refines_line_example :
    ((admission_after (some 3) events).holding
      ≡ take (limit_of (some 3)) (line_after (limit_of (some 3)) events))
    × ((admission_after (some 3) events).waiters
        ≡ drop (limit_of (some 3)) (line_after (limit_of (some 3)) events))
    × ((admission_after (some 3) events).active ≡ length (admission_after (some 3) events).holding)
    × ((admission_after (some 3) events).active ≤ limit_of (some 3))
admission_after-refines_line_example = admission_after-refines_line (some 3) events
