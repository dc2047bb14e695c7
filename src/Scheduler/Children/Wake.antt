-- ===== src/Scheduler/Children/Wake.antt =====
-- `wakeReadyParents` of src/scheduler/children.ts: parents whose children have all ended are resumed,
-- once each failed child that may be replaced has been. `try_lock` says which advisory locks are
-- free, `is_free` which rows are, and `artifacts` are the rows that the lineage reads.
use managed_agents_runtime.Prelude.{
  ℕ, suc, zero, Bool, true, false, not, ◌&&◌, ◌||◌, List, ◌∷◌, [], Option, none, some,
  if◌then◌else◌, leb, ltb, ◌==◌, filter, find, any,
}
use managed_agents_runtime.Json.{
  Json, null, bool, num, str, arr, obj, Items, nil, cons, Fields, end, field, Payload,
}
use managed_agents_runtime.Core.Types.{
  waiting_children, queued, status_eq, status_name, RunRow, RunEventRow, children_resolved,
  event_name,
}
use managed_agents_runtime.Core.StateMachine.{is_terminal}
use managed_agents_runtime.Store.Database.{
  Db, Tx, pure, ◌>>=◌, gets, message, Result, ok, err, with_transaction,
}
use managed_agents_runtime.Store.Admissions.{lock_run_admission_tenant_row}
use managed_agents_runtime.Store.ChildLineage.{
  ArtifactRefRow, DelegatedChildResult, ChildLineageProjection, child_lineage_projection,
}
use managed_agents_runtime.Transition.{TransitionOptions, no_patch, transition_run}
use managed_agents_runtime.Scheduler.Children.Replace.{
  WakeResult, nothing, is_child, NewIds, current_children, is_replaceable, replace_each,
  settle_replacements,
}

-- `p.status = 'WAITING_CHILDREN' AND NOT EXISTS (…)`.
unfoldable pub is_ready : List RunRow → RunRow → Bool
is_ready runs p =
    status_eq p.status waiting_children
    && not (any (λ c. is_child p.id c && not (is_terminal c.status)) runs)

abbrev insert_by_updated : RunRow → List RunRow → List RunRow
insert_by_updated r [] = r ∷ []
insert_by_updated r (s ∷ rest) =
    let later = insert_by_updated r rest in
    if ltb s.updated_at r.updated_at || ((s.updated_at == r.updated_at) && leb s.id r.id)
    then s ∷ later
    else r ∷ s ∷ rest

abbrev sort_by_updated : List RunRow → List RunRow
sort_by_updated [] = []
sort_by_updated (r ∷ rest) = insert_by_updated r (sort_by_updated rest)

abbrev take : ℕ → List RunRow → List RunRow
take zero rows = []
take (suc n) [] = []
take (suc n) (r ∷ rows) = r ∷ take n rows

-- The candidates, at most 32.
unfoldable pub candidates : Db → List RunRow
unfolding is_ready
candidates db = take 32 (sort_by_updated (filter (is_ready db.runs) db.runs))

abbrev null_or : {A : Type 0} → (A → Json) → Option A → Json
null_or f none = null
null_or f (some a) = f a

abbrev to_items : {A : Type 0} → (A → Json) → List A → Items
to_items f [] = nil
to_items f (a ∷ rest) = cons (f a) (to_items f rest)

abbrev to_fields : Payload → Fields
to_fields [] = end
to_fields ((k, v) ∷ rest) = field k v (to_fields rest)

abbrev artifact_json : ArtifactRefRow → Json
artifact_json a = obj (
    to_fields (
      ("id", num a.id)
      ∷ ("schemaVersion", num a.schema_version)
      ∷ ("digest", str a.digest)
      ∷ ("mimeType", str a.mime_type)
      ∷ ("sizeBytes", num a.size_bytes)
      ∷ ("logicalRole", str a.logical_role)
      ∷ []))

abbrev evidence_json : RunEventRow → Json
evidence_json e = obj (
    to_fields (
      ("kind", str "run_event")
      ∷ ("runId", num e.run_id)
      ∷ ("seq", num e.seq)
      ∷ ("type", str (event_name e.type))
      ∷ []))

-- A `DelegatedChildResult` as the payload of the event has it.
unfoldable pub child_json : DelegatedChildResult → Json
unfolding status_name event_name
child_json c = obj (
    to_fields (
      ("schemaVersion", num 1)
      ∷ ("parentRunId", num c.parent_run_id)
      ∷ ("rootRunId", num c.root_run_id)
      ∷ ("runId", num c.run_id)
      ∷ ("replacesRunId", null_or num c.replaces_run_id)
      ∷ ("replacementGeneration", num c.replacement_generation)
      ∷ ("selected", bool c.selected)
      ∷ ("goal", str c.goal)
      ∷ ("status", str (status_name c.status))
      ∷ ("terminalReason", str c.terminal_reason)
      ∷ ("result", null_or (λ j. j) c.result)
      ∷ ("resultSizeBytes", null_or num c.result_size_bytes)
      ∷ ("artifactRefs", arr (to_items artifact_json c.artifact_refs))
      ∷ ("evidenceRefs", arr (to_items evidence_json c.evidence_refs))
      ∷ ("usage", obj (field "tokens" (num c.tokens) end))
      ∷ (
        "workspaceMerge",
        obj (
            to_fields (
              ("strategy", str "isolated-no-automatic-merge")
              ∷ ("patchRef", null)
              ∷ ("conflictBehavior", str "parent-must-apply-explicit-patch")
              ∷ [])),
      )
      ∷ []))

abbrev pub wake_options : List DelegatedChildResult → TransitionOptions
wake_options selected = record {
  expect_from = waiting_children ∷ [];
  to = queued;
  type = children_resolved;
  payload = ("children", arr (to_items child_json selected)) ∷ [];
  attempt_id = none;
  reason = none;
  patch = record no_patch { current_attempt_id = some none };
}

-- What the lineage says, or the throw.
abbrev pub of_lineage : Result (Option ChildLineageProjection) → Tx ChildLineageProjection
of_lineage (err e) db = err e
of_lineage (ok none) db = err (message "parent disappeared while resolving children")
of_lineage (ok (some lineage)) db = ok (lineage, db)

-- No child may be replaced: the parent is queued with the results of its children.
unfoldable pub wake_parent : List ArtifactRefRow → RunRow → Tx WakeResult
unfolding child_json
wake_parent artifacts parent = do
  projected ← gets (child_lineage_projection artifacts parent.id parent.tenant_id)
  lineage ← of_lineage projected
  _ ← transition_run parent.id (wake_options lineage.selected)
  pure (record { woken = parent.id ∷ []; replaced = [] })

unfoldable pub replace_or_wake :
    List ArtifactRefRow → (ℕ → NewIds) → RunRow → List RunRow → Tx WakeResult
unfolding wake_parent
replace_or_wake artifacts fresh parent [] db = wake_parent artifacts parent db
replace_or_wake artifacts fresh parent (k ∷ rest) db =
    settle_replacements parent.id (replace_each fresh parent.tenant_id parent.id (k ∷ rest) db) db

-- The parent, if it is still ready and its row is free.
unfoldable pub resolve_claimed :
    List ArtifactRefRow → (ℕ → NewIds) → ℕ → Option RunRow → Tx WakeResult
unfolding replace_or_wake
resolve_claimed artifacts fresh max_replacements none = pure nothing
resolve_claimed artifacts fresh max_replacements (some parent) = do
  kids ← gets (current_children parent.id)
  replace_or_wake artifacts fresh parent (filter (is_replaceable max_replacements) kids)

-- The transaction on one candidate.
unfoldable pub resolve_candidate :
    List ArtifactRefRow → (ℕ → NewIds) → (ℕ → Bool) → (RunRow → Bool) → ℕ → RunRow → Tx WakeResult
unfolding resolve_claimed is_ready
resolve_candidate artifacts fresh try_lock is_free max_replacements candidate =
    if try_lock candidate.id
    then (do
      _ ← lock_run_admission_tenant_row candidate.tenant_id
      claimed ←
          gets (λ db. find (λ p. (p.id == candidate.id) && is_ready db.runs p && is_free p) db.runs)
      resolve_claimed artifacts fresh max_replacements claimed)
    else pure nothing

abbrev pub is_nothing : WakeResult → Bool
is_nothing r = elim r.woken [
  | [] ↦ elim r.replaced [ [] ↦ true | id ∷ rest ↦ false ]
  | id ∷ rest ↦ false
]

-- The candidates in turn, up to the first that has an outcome; an error ends the loop.
abbrev pub wake_next :
    Result WakeResult × Db → (Db → Result WakeResult × Db) → Result WakeResult × Db
wake_next (err e, db) later = (err e, db)
wake_next (ok outcome, db) later = if is_nothing outcome then later db else (ok outcome, db)

unfoldable pub wake_from : (RunRow → Tx WakeResult) → List RunRow → Db → Result WakeResult × Db
wake_from resolve [] db = (ok nothing, db)
wake_from resolve (candidate ∷ rest) db =
    wake_next (with_transaction (resolve candidate) db) (λ db'. wake_from resolve rest db')

unfoldable pub wake_ready_parents :
    List ArtifactRefRow
    → (ℕ → NewIds)
    → (ℕ → Bool)
    → (RunRow → Bool)
    → ℕ
    → Db
    → Result WakeResult × Db
unfolding wake_from candidates resolve_candidate
wake_ready_parents artifacts fresh try_lock is_free max_replacements db =
    wake_from (resolve_candidate artifacts fresh try_lock is_free max_replacements) (candidates db)
      db
