-- ===== src/Store/ChildLineage.antt =====
-- src/store/childLineage.ts: the children of a run with what they replace, and their bounded results.
-- The rows of the table `artifacts` are an argument, in the order of the query. The messages of the
-- errors leave out the id that the source puts in.
pub mod Root
use managed_agents_runtime.Prelude.{
  ℕ, zero, suc, ◌+◌, String, Bool, true, false, not, ◌&&◌, ◌||◌, List, ◌∷◌, [], map, Option, none,
  some, if◌then◌else◌, ltb, ◌==◌, filter, any, row, length,
}
use managed_agents_runtime.Json.{Json}
use managed_agents_runtime.Core.Types.{
  RunStatus, status_name, RunRow, RunEventRow, EventType, run_completed, run_failed, run_cancelled,
}
use managed_agents_runtime.Store.Database.{Db, Error, message, Result, ok, err}

pub record ChildRow : Type 0 where
  pub id : ℕ
  pub parent_run_id : Option ℕ
  pub replaces_run_id : Option ℕ
  pub replacement_generation : ℕ
  pub goal : String
  pub status : RunStatus
  pub status_reason : Option String
  pub result : Option Json
  pub result_size_bytes : Option ℕ
  pub tokens_used : ℕ
  pub terminal_event : Option RunEventRow

pub record ArtifactRefRow : Type 0 where
  pub id : ℕ
  pub producer_run_id : ℕ
  pub schema_version : ℕ
  pub digest : String
  pub mime_type : String
  pub size_bytes : ℕ
  pub logical_role : String

-- The constants of the result, `schemaVersion` and `workspaceMerge`, are left out.
pub record DelegatedChildResult : Type 0 where
  pub parent_run_id : ℕ
  pub root_run_id : ℕ
  pub run_id : ℕ
  pub replaces_run_id : Option ℕ
  pub replacement_generation : ℕ
  pub selected : Bool
  pub goal : String
  pub status : RunStatus
  pub terminal_reason : String
  pub result : Option Json
  pub result_size_bytes : Option ℕ
  pub artifact_refs : List ArtifactRefRow
  pub evidence_refs : List RunEventRow
  pub tokens : ℕ

pub record ChildLineageProjection : Type 0 where
  pub parent_run_id : ℕ
  pub children : List DelegatedChildResult
  pub selected : List DelegatedChildResult

-- `type = ANY('{RunCompleted, RunFailed, RunCancelled}')`.
abbrev is_terminal_event : EventType → Bool
is_terminal_event run_completed = true
is_terminal_event run_failed = true
is_terminal_event run_cancelled = true
is_terminal_event _ = false

abbrev later_of : RunEventRow → Option RunEventRow → RunEventRow
later_of e none = e
later_of e (some best) = if ltb best.seq e.seq then e else best

-- `ORDER BY seq DESC LIMIT 1`.
unfoldable pub terminal_event : ℕ → List RunEventRow → Option RunEventRow
terminal_event run_id [] = none
terminal_event run_id (e ∷ rest) =
    let best = terminal_event run_id rest in
    if (e.run_id == run_id) && is_terminal_event e.type then some (later_of e best) else best

unfoldable pub child_row : List RunEventRow → RunRow → ChildRow
unfolding terminal_event
child_row events r = record {
  id = r.id;
  parent_run_id = r.parent_run_id;
  replaces_run_id = r.replaces_run_id;
  replacement_generation = r.replacement_generation;
  goal = r.goal;
  status = r.status;
  status_reason = r.status_reason;
  result = r.result;
  result_size_bytes = r.result_size_bytes;
  tokens_used = r.tokens_used;
  terminal_event = terminal_event r.id events;
}

-- `replacement_generation, created_at, id`.
abbrev goes_before : RunRow → RunRow → Bool
goes_before r s =
    ltb r.replacement_generation s.replacement_generation
    || ((r.replacement_generation == s.replacement_generation)
        && (ltb r.created_at s.created_at || ((r.created_at == s.created_at) && ltb r.id s.id)))

abbrev insert_child : RunRow → List RunRow → List RunRow
insert_child r [] = r ∷ []
insert_child r (s ∷ rest) =
    let later = insert_child r rest in if goes_before s r then s ∷ later else r ∷ s ∷ rest

abbrev sort_children : List RunRow → List RunRow
sort_children [] = []
sort_children (r ∷ rest) = insert_child r (sort_children rest)

abbrev pub is_child_of : ℕ → ℕ → RunRow → Bool
is_child_of parent_run_id tenant_id r =
    (r.tenant_id == tenant_id)
    && (elim r.parent_run_id [ none ↦ false | some p ↦ p == parent_run_id ])

unfoldable pub child_rows : ℕ → ℕ → Db → List ChildRow
unfolding child_row
child_rows parent_run_id tenant_id db =
    map (child_row db.events) (sort_children (filter (is_child_of parent_run_id tenant_id) db.runs))

abbrev pub includes : ℕ → List ℕ → Bool
includes id = any (λ v. v == id)

-- `byId.get(id)`. The ids are a primary key, so a map by id has the row of each.
abbrev pub by_id : List ChildRow → ℕ → Option ChildRow
by_id rows id = row ChildRow.id id rows

-- The end of the loop of `rootOf`: with its root, with a throw, or without fuel.
pub data Walk : Type 0 where
  root : ℕ → Walk
  cycle missing : ℕ → Walk
  out_of_fuel : Walk

-- The `while` loop of `rootOf`, from `cursor` with the set `visited`.
unfoldable pub walk : ℕ → List ChildRow → List ℕ → ChildRow → Walk
walk zero rows visited cursor = out_of_fuel
walk (suc fuel) rows visited cursor = elim cursor.replaces_run_id [
  | none ↦ root cursor.id
  | some replaced ↦
      if includes cursor.id visited then cycle cursor.id else elim (by_id rows replaced) [
        | none ↦ missing cursor.id
        | some previous ↦ walk fuel rows (cursor.id ∷ visited) previous
      ]
]

-- A round for each row, and one more, are enough.
unfoldable pub root_of : List ChildRow → ChildRow → Walk
unfolding walk
root_of rows r = walk (length rows + 1) rows [] r

-- `superseded.has(id)`.
unfoldable pub is_superseded : List ChildRow → ℕ → Bool
is_superseded rows id =
    any (λ r. elim r.replaces_run_id [ none ↦ false | some replaced ↦ replaced == id ]) rows

-- `row.status.toLowerCase()`.
abbrev lower_name : RunStatus → String
lower_name RunStatus.created = "created"
lower_name RunStatus.resolving = "resolving"
lower_name RunStatus.queued = "queued"
lower_name RunStatus.starting = "starting"
lower_name RunStatus.running = "running"
lower_name RunStatus.waiting_approval = "waiting_approval"
lower_name RunStatus.waiting_signal = "waiting_signal"
lower_name RunStatus.waiting_children = "waiting_children"
lower_name RunStatus.sleeping = "sleeping"
lower_name RunStatus.suspended = "suspended"
lower_name RunStatus.retry_pending = "retry_pending"
lower_name RunStatus.verifying = "verifying"
lower_name RunStatus.completed = "completed"
lower_name RunStatus.failed = "failed"
lower_name RunStatus.cancelled = "cancelled"

abbrev reason_of : Option String → RunStatus → String
reason_of none status = lower_name status
reason_of (some reason) status = reason

abbrev evidence : Option RunEventRow → List RunEventRow
evidence none = []
evidence (some e) = e ∷ []

unfoldable pub child_result :
    ℕ → List ChildRow → List ArtifactRefRow → ℕ → ChildRow → DelegatedChildResult
unfolding is_superseded
child_result parent_run_id rows artifacts root_run_id r = record {
  parent_run_id = parent_run_id;
  root_run_id = root_run_id;
  run_id = r.id;
  replaces_run_id = r.replaces_run_id;
  replacement_generation = r.replacement_generation;
  selected = not (is_superseded rows r.id);
  goal = r.goal;
  status = r.status;
  terminal_reason = reason_of r.status_reason r.status;
  result = r.result;
  result_size_bytes = r.result_size_bytes;
  artifact_refs = filter (λ a. a.producer_run_id == r.id) artifacts;
  evidence_refs = evidence r.terminal_event;
  tokens = r.tokens_used;
}

abbrev cons_result :
    DelegatedChildResult → Result (List DelegatedChildResult) → Result (List DelegatedChildResult)
cons_result child (ok children) = ok (child ∷ children)
cons_result child (err e) = err e

-- One child of the result, or the throw of `rootOf`.
unfoldable pub rooted_result :
    ℕ
    → List ChildRow
    → List ArtifactRefRow
    → ChildRow
    → Walk
    → Result (List DelegatedChildResult)
    → Result (List DelegatedChildResult)
unfolding child_result
rooted_result parent_run_id rows artifacts r (root id) others =
    cons_result (child_result parent_run_id rows artifacts id r) others
rooted_result parent_run_id rows artifacts r (cycle id) others =
    err (message "replacement lineage cycle")
rooted_result parent_run_id rows artifacts r (missing id) others =
    err (message "replacement lineage predecessor missing")
rooted_result parent_run_id rows artifacts r out_of_fuel others =
    err (message "replacement lineage out of fuel")

-- `rows.map(…)`; the first row that throws ends it.
unfoldable pub child_results :
    ℕ → List ChildRow → List ArtifactRefRow → List ChildRow → Result (List DelegatedChildResult)
unfolding rooted_result root_of
child_results parent_run_id rows artifacts [] = ok []
child_results parent_run_id rows artifacts (r ∷ rest) =
    rooted_result parent_run_id rows artifacts r (root_of rows r)
      (child_results parent_run_id rows artifacts rest)

abbrev project : ℕ → Result (List DelegatedChildResult) → Result (Option ChildLineageProjection)
project parent_run_id (err e) = err e
project parent_run_id (ok children) = ok (
    some (record {
      parent_run_id = parent_run_id;
      children = children;
      selected = filter (λ c. c.selected) children;
    }))

-- `none` where the tenant has no such run.
unfoldable pub child_lineage_projection :
    List ArtifactRefRow → ℕ → ℕ → Db → Result (Option ChildLineageProjection)
unfolding child_results child_rows
child_lineage_projection artifacts parent_run_id tenant_id db =
    let rows = child_rows parent_run_id tenant_id db in
    if any (λ r. (r.id == parent_run_id) && (r.tenant_id == tenant_id)) db.runs
    then project parent_run_id (child_results parent_run_id rows artifacts rows)
    else ok none
