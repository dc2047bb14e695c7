-- ===== src/Scheduler/Children/Replace.antt =====
-- The replacement of failed children in `wakeReadyParents` of src/scheduler/children.ts. `fresh` gives
-- the ids of a replacement by the id of the run that it replaces.
use text.Mathlib.Text.{◌==◌ as str_eq}
use managed_agents_runtime.Prelude.{
  ℕ, ◌+◌, ◌-◌, String, Bool, true, false, not, ◌&&◌, List, ◌∷◌, [], map, Option, none, some,
  if◌then◌else◌, leb, ltb, ◌==◌, filter, any, update_row,
}
use managed_agents_runtime.Json.{Json, num, str, spread, member}
use managed_agents_runtime.Core.Types.{
  failed, status_eq, RunRow, RunEventRow, EventType, child_run_replaced, child_replacement_deferred,
}
use managed_agents_runtime.Store.Rows.{CapabilityGrantRow}
use managed_agents_runtime.Store.Database.{
  Db, Tx, pure, ◌>>=◌, ◌>>◌, gets, modify, throw_if, message, Result, ok, err, RunAdmissionReason,
  tenant_unavailable, concurrency_exhausted, token_capacity_exhausted, admission_rejected,
}
use managed_agents_runtime.Store.Grants.{list_grants}
use managed_agents_runtime.Store.Runs.{GrantInput, CreateRunInput, create_run}
use managed_agents_runtime.Transition.{no_patch, append_event}

pub record WakeResult : Type 0 where
  pub woken : List ℕ
  pub replaced : List ℕ

abbrev pub nothing : WakeResult
nothing = record { woken = []; replaced = [] }

abbrev pub is_child : ℕ → RunRow → Bool
is_child parent_run_id r = elim r.parent_run_id [ none ↦ false | some p ↦ p == parent_run_id ]

abbrev insert_by_created : RunRow → List RunRow → List RunRow
insert_by_created r [] = r ∷ []
insert_by_created r (s ∷ rest) =
    let later = insert_by_created r rest in
    if leb r.created_at s.created_at then r ∷ s ∷ rest else s ∷ later

abbrev sort_by_created : List RunRow → List RunRow
sort_by_created [] = []
sort_by_created (r ∷ rest) = insert_by_created r (sort_by_created rest)

abbrev replaces : ℕ → RunRow → Bool
replaces id r = elim r.replaces_run_id [ none ↦ false | some replaced ↦ replaced == id ]

-- The children that none replaces: `kids.filter((k) => !k.superseded)`.
unfoldable pub current_children : ℕ → Db → List RunRow
current_children parent_run_id db =
    filter (λ k. not (any (replaces k.id) db.runs))
      (sort_by_created (filter (is_child parent_run_id) db.runs))

-- `token_budget === null || BigInt(token_budget) > BigInt(tokens_used)`.
abbrev pub has_tokens_left : Option ℕ → ℕ → Bool
has_tokens_left none used = true
has_tokens_left (some budget) used = ltb used budget

unfoldable pub is_replaceable : ℕ → RunRow → Bool
is_replaceable max_replacements k =
    status_eq k.status failed
    && ltb k.replacement_generation max_replacements
    && has_tokens_left k.token_budget k.tokens_used

-- What `newId` returns for a replacement.
pub record NewIds : Type 0 where
  pub run_id : ℕ
  pub workspace_id : ℕ
  pub grant_id : ℕ → ℕ

abbrev less_used : Option ℕ → ℕ → Option ℕ
less_used none used = none
less_used (some limit) used = some (limit - used)

unfoldable pub inherited_grant : NewIds → CapabilityGrantRow → GrantInput
inherited_grant ids g = record {
  id = ids.grant_id g.id;
  action = g.action_pattern;
  resource = some g.resource_pattern;
  requires_approval = some g.requires_approval;
  max_calls = less_used g.max_calls g.calls_used;
  expires_at = g.expires_at;
}

-- The fresh attempt at what `k` failed at. A replaceable child has tokens left, so the subtraction
-- of its budget is exact.
unfoldable pub replacement_input :
    ℕ → ℕ → NewIds → List CapabilityGrantRow → RunRow → CreateRunInput
unfolding inherited_grant spread
replacement_input tenant_id parent_run_id ids grants k = record {
  run_id = ids.run_id;
  workspace_id = ids.workspace_id;
  tenant_id = tenant_id;
  managed_session_id = none;
  agent_version_id = k.agent_version_id;
  goal = k.goal;
  input = some (
      spread k.input (
        ("replacedFrom", num k.id)
        ∷ ("replacementGeneration", num (k.replacement_generation + 1))
        ∷ []));
  max_steps = some k.max_steps;
  token_budget = less_used k.token_budget k.tokens_used;
  scheduled_for = none;
  parent_run_id = some parent_run_id;
  replaces_run_id = some k.id;
  replacement_generation = some (k.replacement_generation + 1);
  forked_from_run_id = none;
  progress = none;
  grants = map (inherited_grant ids) grants;
  debug_fault_points = [];
}

-- One round of the loop over the replaceable children.
unfoldable pub replace_child : (ℕ → NewIds) → ℕ → ℕ → RunRow → Tx ℕ
unfolding replacement_input
replace_child fresh tenant_id parent_run_id k = do
  throw_if (not (k.tenant_id == tenant_id)) (message "child tenant does not match parent")
  grants ← gets (list_grants k.id)
  child ← create_run (replacement_input tenant_id parent_run_id (fresh k.id) grants k)
  _ ←
      append_event parent_run_id child_run_replaced
        (("failedChildId", num k.id)
          ∷ ("replacementChildId", num child.id)
          ∷ ("goal", str k.goal)
          ∷ ("generation", num (k.replacement_generation + 1))
          ∷ [])
        none no_patch
  pure child.id

unfoldable pub replace_each : (ℕ → NewIds) → ℕ → ℕ → List RunRow → Tx (List ℕ)
unfolding replace_child
replace_each fresh tenant_id parent_run_id [] = pure []
replace_each fresh tenant_id parent_run_id (k ∷ rest) = do
  id ← replace_child fresh tenant_id parent_run_id k
  ids ← replace_each fresh tenant_id parent_run_id rest
  pure (id ∷ ids)

abbrev reason_name : RunAdmissionReason → String
reason_name tenant_unavailable = "tenant_unavailable"
reason_name concurrency_exhausted = "concurrency_exhausted"
reason_name token_capacity_exhausted = "token_capacity_exhausted"

abbrev has_reason : String → Option Json → Bool
has_reason reason (some (str text)) = str_eq text reason
has_reason reason _ = false

abbrev is_deferral : EventType → Bool
is_deferral child_replacement_deferred = true
is_deferral _ = false

-- The reason was recorded for the parent before.
unfoldable pub is_recorded : ℕ → String → RunEventRow → Bool
unfolding member
is_recorded parent_run_id reason e =
    (e.run_id == parent_run_id)
    && is_deferral e.type
    && has_reason reason (member "reason" e.payload)

abbrev touch : ℕ → Db → Db
touch parent_run_id db = record db {
  runs = update_row RunRow.id parent_run_id (λ r. record r { updated_at = db.now }) db.runs;
}

-- After the rollback to the savepoint: the reason once, then only `updated_at`.
unfoldable pub defer_replacement : ℕ → RunAdmissionReason → Tx WakeResult
unfolding is_recorded
defer_replacement parent_run_id reason = do
  recorded ← gets (λ db. any (is_recorded parent_run_id (reason_name reason)) db.events)
  if recorded then (do modify (touch parent_run_id); pure nothing) else (do
    _ ←
        append_event parent_run_id child_replacement_deferred
          (("reason", str (reason_name reason)) ∷ []) none no_patch
    pure nothing)

-- The `try` with its savepoint: a refused admission leaves the database of the savepoint.
unfoldable pub settle_replacements : ℕ → Result (List ℕ × Db) → Tx WakeResult
unfolding defer_replacement
settle_replacements parent_run_id (ok (ids, db')) db =
    ok (record { woken = []; replaced = ids }, db')
settle_replacements parent_run_id (err (admission_rejected reason)) db =
    defer_replacement parent_run_id reason db
settle_replacements parent_run_id (err e) db = err e
