-- ===== src/Harness/Admission.antt =====
-- `acquireFenceAdmission` of src/harness/governedAction.ts: how many governed actions of a pool may
-- hold a connection at a time. A caller is a number; `holding` are the callers whose release function
-- has not been called yet, in the order in which they got their permits.
pub mod Queue
use managed_agents_runtime.Prelude.{
  ℕ, ◌+◌, ◌-◌, max, Bool, true, false, List, ◌∷◌, [], ◌++◌, Option, none, some, if◌then◌else◌, leb,
  ◌==◌, any,
}

pub record PoolAdmission : Type 0 where
  pub active : ℕ
  pub limit : ℕ
  pub waiters : List ℕ
  pub holding : List ℕ

abbrev configured_max : Option ℕ → ℕ
configured_max none = 10
configured_max (some n) = n

-- The admission of a pool that is met for the first time, by the `max` of its options.
unfoldable pub first_admission : Option ℕ → PoolAdmission
first_admission max_option = record {
  active = 0;
  limit = max 1 (configured_max max_option - 1);
  waiters = [];
  holding = [];
}

unfoldable pub acquire_fence_admission : ℕ → PoolAdmission → PoolAdmission
acquire_fence_admission caller admission =
    if leb admission.limit admission.active
    then record admission { waiters = admission.waiters ++ caller ∷ [] }
    else record admission {
      active = admission.active + 1;
      holding = admission.holding ++ caller ∷ [];
    }

abbrev pub includes : ℕ → List ℕ → Bool
includes caller = any (λ c. c == caller)

abbrev pub remove : ℕ → List ℕ → List ℕ
remove caller [] = []
remove caller (c ∷ rest) = if c == caller then rest else c ∷ remove caller rest

-- `waiters.shift()`: the permit goes to the first waiter, or back.
unfoldable pub pass_on : List ℕ → PoolAdmission → PoolAdmission
pass_on [] admission = record admission { active = admission.active - 1 }
pass_on (next ∷ rest) admission = record admission {
  waiters = rest;
  holding = admission.holding ++ next ∷ [];
}

-- The function that a caller gets: once it was called, `released` is set.
unfoldable pub release : ℕ → PoolAdmission → PoolAdmission
unfolding pass_on
release caller admission =
    if includes caller admission.holding
    then pass_on admission.waiters (record admission { holding = remove caller admission.holding })
    else admission

pub data Event : Type 0 where
  acquires releases : ℕ → Event

unfoldable pub on_event : Event → PoolAdmission → PoolAdmission
unfolding acquire_fence_admission release
on_event (acquires caller) admission = acquire_fence_admission caller admission
on_event (releases caller) admission = release caller admission

-- What a pool's callers do, the latest first.
unfoldable pub admission_after : Option ℕ → List Event → PoolAdmission
unfolding first_admission on_event
admission_after max_option [] = first_admission max_option
admission_after max_option (e ∷ before) = on_event e (admission_after max_option before)
