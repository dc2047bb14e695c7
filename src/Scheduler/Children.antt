-- ===== src/Scheduler/Children.antt =====
-- src/scheduler/children.ts: `spawnChildren`, which delegates to child runs and suspends their parent.
-- The ids that `newId` returns stand in the specifications of the children; `byte_length` is
-- `Buffer.byteLength`.
pub mod Replace
pub mod Wake
pub mod Spawned
pub mod Woken
use managed_agents_runtime.Prelude.{
  ℕ, String, Bool, true, false, not, ◌||◌, List, ◌∷◌, [], Option, none, some, ltb, any, row, length,
}
use managed_agents_runtime.Json.{Json, Items, nil, cons, arr, num, str, Payload}
use managed_agents_runtime.Core.Types.{RunRow, running, waiting_children, child_run_spawned}
use managed_agents_runtime.Store.Database.{
  Tx, pure, ◌>>=◌, ◌>>◌, gets, throw_if, or_throw, message, run_not_found,
}
use managed_agents_runtime.Store.Admissions.{lock_run_admission_tenant}
use managed_agents_runtime.Store.Runs.{GrantInput, CreateRunInput, create_run}
use managed_agents_runtime.Transition.{TransitionOptions, no_patch, transition_run, append_event}

-- `MAX_DELEGATED_CHILDREN` and `MAX_DELEGATED_GOAL_BYTES` of src/core/delegatedResults.ts.
abbrev pub max_delegated_children : ℕ
max_delegated_children = 8

abbrev pub max_delegated_goal_bytes : ℕ
max_delegated_goal_bytes = 4096

pub record ChildSpec : Type 0 where
  pub run_id : ℕ
  pub workspace_id : ℕ
  pub agent_version_id : ℕ
  pub goal : String
  pub input : Option Payload
  pub grants : List GrantInput
  pub token_budget : Option ℕ
  pub max_steps : Option ℕ

unfoldable pub child_input : ℕ → ℕ → ChildSpec → CreateRunInput
child_input tenant_id parent_run_id c = record {
  run_id = c.run_id;
  workspace_id = c.workspace_id;
  tenant_id = tenant_id;
  managed_session_id = none;
  agent_version_id = c.agent_version_id;
  goal = c.goal;
  input = c.input;
  max_steps = c.max_steps;
  token_budget = c.token_budget;
  scheduled_for = none;
  parent_run_id = some parent_run_id;
  replaces_run_id = none;
  replacement_generation = none;
  forked_from_run_id = none;
  progress = none;
  grants = c.grants;
  debug_fault_points = [];
}

abbrev pub spawned_payload : ℕ → String → Payload
spawned_payload child_run_id goal = ("childRunId", num child_run_id) ∷ ("goal", str goal) ∷ []

-- One round of the loop: the child, and the parent's event.
unfoldable pub spawn_child : ℕ → ℕ → ℕ → ChildSpec → Tx ℕ
unfolding child_input
spawn_child tenant_id parent_run_id attempt_id c = do
  child ← create_run (child_input tenant_id parent_run_id c)
  _ ←
      append_event parent_run_id child_run_spawned (spawned_payload child.id c.goal)
        (some attempt_id) no_patch
  pure child.id

unfoldable pub spawn_each : ℕ → ℕ → ℕ → List ChildSpec → Tx (List ℕ)
unfolding spawn_child
spawn_each tenant_id parent_run_id attempt_id [] = pure []
spawn_each tenant_id parent_run_id attempt_id (c ∷ rest) = do
  id ← spawn_child tenant_id parent_run_id attempt_id c
  ids ← spawn_each tenant_id parent_run_id attempt_id rest
  pure (id ∷ ids)

abbrev id_items : List ℕ → Items
id_items [] = nil
id_items (id ∷ ids) = cons (num id) (id_items ids)

abbrev pub suspend_options : ℕ → List ℕ → TransitionOptions
suspend_options attempt_id ids = record {
  expect_from = running ∷ [];
  to = waiting_children;
  type = child_run_spawned;
  payload = ("childRunIds", arr (id_items ids)) ∷ [];
  attempt_id = some attempt_id;
  reason = none;
  patch = record no_patch { current_attempt_id = some none };
}

-- `input.children.length < 1 || input.children.length > MAX_DELEGATED_CHILDREN`.
abbrev pub is_bad_count : List ChildSpec → Bool
is_bad_count children = ltb (length children) 1 || ltb max_delegated_children (length children)

unfoldable pub spawn_children : (String → ℕ) → ℕ → ℕ → List ChildSpec → Tx (List ℕ)
unfolding spawn_each
spawn_children byte_length parent_run_id attempt_id children = do
  throw_if (is_bad_count children) (message "delegation requires 1-8 children")
  throw_if (any (λ c. ltb max_delegated_goal_bytes (byte_length c.goal)) children)
      (message "delegated goals must not exceed 4096 encoded bytes")
  found ← gets (λ db. row RunRow.id parent_run_id db.runs)
  ownership ← or_throw found (run_not_found parent_run_id)
  _ ← lock_run_admission_tenant ownership.tenant_id
  locked ← gets (λ db. row RunRow.id parent_run_id db.runs)
  parent ← or_throw locked (run_not_found parent_run_id)
  ids ← spawn_each parent.tenant_id parent_run_id attempt_id children
  _ ← transition_run parent_run_id (suspend_options attempt_id ids)
  pure ids
