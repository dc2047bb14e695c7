-- ===== src/Store/Grants.antt =====
-- src/store/grants.ts: the capability grants of a run. `clock` is what `clock_timestamp()` reads.
pub mod Pattern
pub mod Consumption
pub mod Selection
use managed_agents_runtime.Prelude.{
  ℕ, suc, ◌+◌, Bool, true, false, not, ◌&&◌, List, ◌∷◌, [], Option, none, some, if◌then◌else◌, leb,
  ltb, ◌==◌, filter, find, update_row,
}
use managed_agents_runtime.Store.Rows.{Text, CapabilityGrantRow}
use managed_agents_runtime.Store.Database.{Db, Tx, ok}
use managed_agents_runtime.Store.Grants.Pattern.{pattern_matches}

unfoldable pub list_grants : ℕ → Db → List CapabilityGrantRow
list_grants run_id db = filter (λ g. g.run_id == run_id) db.grants

-- `expires_at IS NULL OR expires_at > clock_timestamp()`.
abbrev pub is_unexpired : ℕ → Option ℕ → Bool
is_unexpired clock none = true
is_unexpired clock (some at) = ltb clock at

abbrev pub insert_by_created :
    CapabilityGrantRow → List CapabilityGrantRow → List CapabilityGrantRow
insert_by_created g [] = g ∷ []
insert_by_created g (h ∷ rest) =
    let later = insert_by_created g rest in
    if leb g.created_at h.created_at then g ∷ h ∷ rest else h ∷ later

-- `ORDER BY created_at ASC`.
unfoldable pub sort_by_created : List CapabilityGrantRow → List CapabilityGrantRow
sort_by_created [] = []
sort_by_created (g ∷ rest) = insert_by_created g (sort_by_created rest)

pub data GrantDecision : Type 0 where
  denied : GrantDecision
  allowed : CapabilityGrantRow → Bool → GrantDecision

-- `g.max_calls === null || g.calls_used < g.max_calls`.
abbrev pub has_calls_left : CapabilityGrantRow → Option ℕ → Bool
has_calls_left g none = true
has_calls_left g (some max_calls) = ltb g.calls_used max_calls

unfoldable pub is_matching : ℕ → Text → Text → CapabilityGrantRow → Bool
is_matching clock action resource g =
    pattern_matches g.action_pattern action
    && pattern_matches g.resource_pattern resource
    && is_unexpired clock g.expires_at
    && has_calls_left g g.max_calls

abbrev pub head : List CapabilityGrantRow → Option CapabilityGrantRow
head [] = none
head (g ∷ rest) = some g

abbrev pub pick_grant : Option ℕ → List CapabilityGrantRow → Option CapabilityGrantRow
pick_grant none matching = head matching
pick_grant (some id) matching = find (λ g. g.id == id) matching

unfoldable pub consume_call : CapabilityGrantRow → CapabilityGrantRow
consume_call g = record g { calls_used = g.calls_used + 1 }

unfoldable pub consume : Option CapabilityGrantRow → Tx GrantDecision
unfolding consume_call
consume none db = ok (denied, db)
consume (some g) db = ok (
  allowed g g.requires_approval,
  record db { grants = update_row CapabilityGrantRow.id g.id consume_call db.grants },
)

-- The matching grants of the run, the oldest first.
unfoldable pub matching_grants : ℕ → ℕ → Text → Text → Db → List CapabilityGrantRow
unfolding list_grants is_matching sort_by_created
matching_grants clock run_id action resource db =
    filter (is_matching clock action resource) (sort_by_created (list_grants run_id db))

unfoldable pub authorize_and_consume : ℕ → ℕ → Text → Text → Option ℕ → Tx GrantDecision
unfolding consume matching_grants
authorize_and_consume clock run_id action resource required_grant_id db =
    consume (pick_grant required_grant_id (matching_grants clock run_id action resource db)) db

-- The grant that was selected earlier, once more at the boundary of the dispatch.
unfoldable pub revalidate_grant_for_dispatch : ℕ → ℕ → ℕ → Text → Text → Db → Bool
revalidate_grant_for_dispatch clock grant_id run_id action resource db =
    elim (find (λ g. (g.id == grant_id) && (g.run_id == run_id)) db.grants) [
      | none ↦ false
      | some g ↦
          is_unexpired clock g.expires_at
          && pattern_matches g.action_pattern action
          && pattern_matches g.resource_pattern resource
    ]
