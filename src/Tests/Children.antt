-- ===== src/Tests/Children.antt =====
-- Children of the small database's run: their delegation, their lineage and the end of the wait.
use managed_agents_runtime.Prelude.{
  ℕ, ◌+◌, String, ◌≡◌, ◌≢◌, ◌≤◌, ◌↔◌, refl, true, List, ◌∷◌, [], none, some, row, All,
}
use managed_agents_runtime.Core.Types.{
  RunStatus, RunRow, running, waiting_children, event_name, status_name,
}
use managed_agents_runtime.Store.Database.{Db, ok, err}
use managed_agents_runtime.Store.Admissions.{
  lock_run_admission_tenant_row, lock_run_admission_tenant, reconcile_terminal, count_active,
  used_today, remaining_reserved, reserve_within, admit, prepare_locked, prepare_run_admission,
  record_run_admission,
}
use managed_agents_runtime.Store.ChildLineage.{
  ChildRow, terminal_event, child_row, child_rows, walk, root_of, root, out_of_fuel, is_superseded,
  child_result, rooted_result, child_results, child_lineage_projection,
}
use managed_agents_runtime.Store.ChildLineage.Root.{LeadsTo, root_of-root_iff}
use managed_agents_runtime.Store.Runs.{
  session_of, check_session, check_version, new_run, insert_run, occupy_session, insert_resources,
  queue_run, write_run, create_run,
}
use managed_agents_runtime.Transition.{
  lock_run, patched_run, write_transition, transition_run, write_event, append_event,
}
use managed_agents_runtime.Scheduler.Children.{
  max_delegated_children, max_delegated_goal_bytes, ChildSpec, child_input, spawn_child, spawn_each,
  spawn_children,
}
use managed_agents_runtime.Scheduler.Children.Replace.{
  WakeResult, nothing, NewIds, current_children, is_replaceable,
}
use managed_agents_runtime.Scheduler.Children.Wake.{
  is_ready, child_json, wake_parent, replace_or_wake, resolve_claimed, resolve_candidate,
}
use managed_agents_runtime.Scheduler.Children.Spawned.{IsSpawned, HasRow, spawn_children-suspends}
use managed_agents_runtime.Scheduler.Children.Woken.{WasReady, resolve_candidate-IsResumed}
use managed_agents_runtime.Tests.Data.{run_one, run_three, db_zero}

abbrev no_length : String → ℕ
no_length goal = 12

abbrev child_eight : ChildSpec
child_eight = record {
  run_id = 8;
  workspace_id = 80;
  agent_version_id = 3;
  goal = "count the receipts";
  input = none;
  grants = [];
  token_budget = some 500;
  max_steps = none;
}

abbrev spawned_ids : List ℕ
spawned_ids = elim (spawn_children no_length 1 5 (child_eight ∷ []) db_zero) [
  | ok (ids, _) ↦ ids
  | err _ ↦ []
]

abbrev db_spawned : Db
db_spawned = elim (spawn_children no_length 1 5 (child_eight ∷ []) db_zero) [
  | ok (_, db) ↦ db
  | err _ ↦ db_zero
]

spawns : spawn_children no_length 1 5 (child_eight ∷ []) db_zero ≡ ok (spawned_ids, db_spawned)
unfolding spawn_children spawn_each spawn_child child_input create_run prepare_run_admission
    lock_run_admission_tenant lock_run_admission_tenant_row prepare_locked count_active used_today
    remaining_reserved reserve_within admit reconcile_terminal session_of check_session
    check_version write_run insert_run occupy_session record_run_admission insert_resources
    queue_run transition_run lock_run write_transition patched_run new_run append_event write_event
spawns = refl

spawn_children-suspends_example :
    (1 ≤ 1)
    × (1 ≤ max_delegated_children)
    × All (λ c. 12 ≤ max_delegated_goal_bytes) (child_eight ∷ [])
    × (spawned_ids ≡ 8 ∷ [])
    × All (IsSpawned 1 db_spawned) (child_eight ∷ [])
    × HasRow 1 running db_zero
    × ((p : RunRow) × (row RunRow.id 1 db_spawned.runs ≡ some p)
        × (p.status ≡ waiting_children)
        × (p.current_attempt_id ≡ none))
spawn_children-suspends_example =
    spawn_children-suspends no_length 1 5 (child_eight ∷ []) db_zero spawned_ids db_spawned spawns

-- Run 12 replaces run 11, and run 13 replaces itself.
abbrev first_child : ChildRow
first_child = record {
  id = 11;
  parent_run_id = some 1;
  replaces_run_id = none;
  replacement_generation = 0;
  goal = "count the receipts";
  status = RunStatus.failed;
  status_reason = none;
  result = none;
  result_size_bytes = none;
  tokens_used = 0;
  terminal_event = none;
}

abbrev second_child : ChildRow
second_child = record first_child { id = 12; replaces_run_id = some 11; replacement_generation = 1 }

abbrev own_child : ChildRow
own_child = record first_child { id = 13; replaces_run_id = some 13 }

abbrev lineage_rows : List ChildRow
lineage_rows = first_child ∷ second_child ∷ own_child ∷ []

roots :
    (root_of lineage_rows second_child ≡ root 11)
    × (root_of lineage_rows own_child ≡ managed_agents_runtime.Store.ChildLineage.Walk.cycle 13)
unfolding root_of walk
roots = (refl, refl)

root_of-root_iff_example :
    (root_of lineage_rows second_child ≢ out_of_fuel)
    × ((root_of lineage_rows second_child ≡ root 11)
        ↔ ((steps : ℕ) × LeadsTo lineage_rows second_child steps 11))
root_of-root_iff_example = root_of-root_iff lineage_rows second_child 11 refl

-- The run waits for one child, which has ended.
abbrev waiting_run : RunRow
waiting_run = record run_one { status = waiting_children; current_attempt_id = none }

abbrev db_waiting : Db
db_waiting = record db_zero {
  runs = waiting_run ∷ record run_three { parent_run_id = some 1 } ∷ [];
}

abbrev new_ids : ℕ → NewIds
new_ids id = record { run_id = 100 + id; workspace_id = 200 + id; grant_id = λ g. 300 + g }

abbrev woken : WakeResult
woken = elim (resolve_candidate [] new_ids (λ id. true) (λ r. true) 2 waiting_run db_waiting) [
  | ok (o, _) ↦ o
  | err _ ↦ nothing
]

abbrev db_woken : Db
db_woken = elim (resolve_candidate [] new_ids (λ id. true) (λ r. true) 2 waiting_run db_waiting) [
  | ok (_, db) ↦ db
  | err _ ↦ db_zero
]

resolves :
    (resolve_candidate [] new_ids (λ id. true) (λ r. true) 2 waiting_run db_waiting
      ≡ ok (woken, db_woken))
    × (woken.woken ≡ 1 ∷ [])
unfolding resolve_candidate lock_run_admission_tenant_row is_ready resolve_claimed current_children
    is_replaceable replace_or_wake wake_parent child_lineage_projection child_rows child_row
    terminal_event child_results rooted_result root_of walk child_result is_superseded
    transition_run lock_run write_transition patched_run child_json status_name event_name
resolves = (refl, refl)

resolve_candidate-IsResumed_example : WasReady 2 waiting_run db_waiting db_woken
resolve_candidate-IsResumed_example =
    resolve_candidate-IsResumed [] new_ids (λ id. true) (λ r. true) 2 waiting_run db_waiting woken
      db_woken resolves.0 (λ e. absurd (some_woken e))
  where
    some_woken : woken.woken ≡ [] → ⊥
    some_woken e = let is = resolves.1 in cc
