-- ===== src/Store/Grants/Consumption.antt =====
-- What `authorizeAndConsume` of src/store/grants.ts lets through.
use managed_agents_runtime.Prelude.{
  Within, each-Within, ◌+◌, ℕ, ◌≤◌, ◌<◌, ◌≡◌, ◌↔◌, ==_iff, ◌≢◌, inl, inr, refl, sym, Bool, true,
  false, ◌&&◌, List, ◌∷◌, [], Option, none, some, arith, ◌==◌, ==_ne, ==_refl, find-none, All,
  All-map, update_row,
}
use mathlib.Core.Path.{subst}
use managed_agents_runtime.Store.Rows.{Text, CapabilityGrantRow}
use managed_agents_runtime.Store.Database.{Db, ok}
use managed_agents_runtime.Store.Grants.{
  GrantDecision, denied, allowed, is_unexpired, has_calls_left, is_matching, consume, consume_call,
  authorize_and_consume,
}
use managed_agents_runtime.Store.Grants.Pattern.{pattern_matches}
use managed_agents_runtime.Store.Grants.Selection.{
  All-pick, IsRowOf, IsRowOf-All, matching_grants_lem, matching_grants-eq-nil, head-none,
  pick_grant-required,
}

-- A grant is used at most as often as its cap says.
abbrev pub IsWithinCap : CapabilityGrantRow → Type 0
IsWithinCap g = Within g.max_calls (λ cap. g.calls_used ≤ cap)

-- The primary key of the table.
abbrev pub HasUniqueIds : List CapabilityGrantRow → Type 0
HasUniqueIds [] = Unit
HasUniqueIds (g ∷ rest) = All (λ h. h.id ≢ g.id) rest × HasUniqueIds rest

consume-eq-allowed :
    (o : Option CapabilityGrantRow) (db : Db) (g : CapabilityGrantRow) (needs : Bool) (db' : Db)
    → consume o db ≡ ok (allowed g needs, db')
    → (o ≡ some g)
      × (needs ≡ g.requires_approval)
      × (db' ≡ record db { grants = update_row CapabilityGrantRow.id g.id consume_call db.grants })
unfolding consume
consume-eq-allowed none db g needs db' h = absurd (cc)
consume-eq-allowed (some x) db g needs db' h = (ground arith, ground arith, ground arith)

consume-eq-denied :
    (o : Option CapabilityGrantRow) (db db' : Db)
    → consume o db ≡ ok (denied, db')
    → (o ≡ none) × (db' ≡ db)
unfolding consume
consume-eq-denied none db db' h = (refl, ground arith)
consume-eq-denied (some x) db db' h = absurd (cc)

untouched :
    (id : ℕ) (xs : List CapabilityGrantRow)
    → All (λ h. h.id ≢ id) xs
    → update_row CapabilityGrantRow.id id consume_call xs ≡ xs
untouched id [] h = refl
untouched id (x ∷ xs) (ne, h) = rw (==_ne x.id id ne, untouched id xs h)

consume_call-cap :
    (g : CapabilityGrantRow) → has_calls_left g g.max_calls ≡ true → IsWithinCap (consume_call g)
unfolding consume_call
consume_call-cap g left =
    each-Within g.max_calls (λ cap. g.calls_used + 1 ≤ cap)
      (λ cap e.
        let free : has_calls_left g (some cap) ≡ true =
          subst (λ m. has_calls_left g m ≡ true) e left in
        ground arith)

caps_kept :
    (xs : List CapabilityGrantRow) (g : CapabilityGrantRow)
    → HasUniqueIds xs
    → IsRowOf xs g
    → has_calls_left g g.max_calls ≡ true
    → All IsWithinCap xs
    → All IsWithinCap (update_row CapabilityGrantRow.id g.id consume_call xs)
caps_kept [] g unique none_there left caps = absurd none_there
caps_kept (x ∷ xs) g (fresh, unique) (inl e) left (_, caps) =
    let left' = subst (λ g. has_calls_left g g.max_calls ≡ true) (sym e) left in
    subst (λ g. All IsWithinCap (update_row CapabilityGrantRow.id g.id consume_call (x ∷ xs))) e
      (rw (==_refl x.id, untouched x.id xs fresh) (consume_call-cap x left', caps))
caps_kept (x ∷ xs) g (fresh, unique) (inr there) left (kept, caps) =
    let ne = IsRowOf-All (λ h. h.id ≢ x.id) xs g there fresh in
    rw (==_ne x.id g.id (λ e. ne (sym e))) (kept, caps_kept xs g unique there left caps)

last_holds : (a b c d : Bool) → (a && b && c && d) ≡ true → d ≡ true
last_holds a b c d h = ground arith

is_matching-has_calls_left :
    (clock : ℕ) (action resource : Text) (g : CapabilityGrantRow)
    → is_matching clock action resource g ≡ true
    → has_calls_left g g.max_calls ≡ true
unfolding is_matching
is_matching-has_calls_left clock action resource g h =
    last_holds (pattern_matches g.action_pattern action)
      (pattern_matches g.resource_pattern resource) (is_unexpired clock g.expires_at)
      (has_calls_left g g.max_calls) h

-- No grant is used more often than its cap: where the grants have different ids and none is over its
-- cap, none is over it after an authorization, whether it was allowed or denied.
pub authorize_and_consume-caps :
    (clock run_id : ℕ) (action resource : Text) (required : Option ℕ) (db : Db)
    (decision : GrantDecision) (db' : Db)
    → HasUniqueIds db.grants
    → All IsWithinCap db.grants
    → authorize_and_consume clock run_id action resource required db ≡ ok (decision, db')
    → All IsWithinCap db'.grants
unfolding authorize_and_consume
authorize_and_consume-caps clock run_id action resource required db denied db' unique caps h =
    let (_, same) = consume-eq-denied _ db db' h in
    subst (λ d. All IsWithinCap d.grants) (sym same) caps
authorize_and_consume-caps clock run_id action resource required db (allowed g needs) db' unique
      caps h =
    let (picked, _, e) = consume-eq-allowed _ db g needs db' h in
    let ((there, _), matches) =
      All-pick _ required _ g (matching_grants_lem clock run_id action resource db) picked in
    subst (λ d. All IsWithinCap d.grants) (sym e)
      (caps_kept db.grants g unique there
        (is_matching-has_calls_left clock action resource g matches) caps)

-- A grant that lets the action through at this clock: it names the action and the resource, it has not
-- expired, and it has a call left.
abbrev pub IsUsable : ℕ → Text → Text → CapabilityGrantRow → Type 0
IsUsable clock action resource g =
    (pattern_matches g.action_pattern action ≡ true)
    × (pattern_matches g.resource_pattern resource ≡ true)
    × Within g.expires_at (λ at. clock < at)
    × Within g.max_calls (λ cap. g.calls_used < cap)

four_parts :
    (a b c d : Bool) → (a && b && c && d) ≡ true → (a ≡ true) × (b ≡ true) × (c ≡ true) × (d ≡ true)
four_parts a b c d h = (ground arith, ground arith, ground arith, ground arith)

four_hold : (a b c d : Bool) → a ≡ true → b ≡ true → c ≡ true → d ≡ true → (a && b && c && d) ≡ true
four_hold a b c d ha hb hc hd = ground arith

is_unexpired_iff :
    (clock : ℕ) (expires_at : Option ℕ)
    → (is_unexpired clock expires_at ≡ true) ↔ Within expires_at (λ at. clock < at)
is_unexpired_iff clock none = (λ _. tt, λ _. refl)
is_unexpired_iff clock (some at) = (λ h. ground arith, λ h. ground arith)

has_calls_left_iff :
    (g : CapabilityGrantRow) (cap : Option ℕ)
    → (has_calls_left g cap ≡ true) ↔ Within cap (λ n. g.calls_used < n)
has_calls_left_iff g none = (λ _. tt, λ _. refl)
has_calls_left_iff g (some n) = (λ h. ground arith, λ h. ground arith)

is_matching-IsUsable :
    (clock : ℕ) (action resource : Text) (g : CapabilityGrantRow)
    → (is_matching clock action resource g ≡ true) ↔ IsUsable clock action resource g
unfolding is_matching
is_matching-IsUsable clock action resource g = (
  λ h.
      let (acts, on, fresh, left) = four_parts _ _ _ _ h in
      (
        acts,
        on,
        (is_unexpired_iff clock g.expires_at).0 fresh,
        (has_calls_left_iff g g.max_calls).0 left,
      ),
  λ (acts, on, fresh, left).
      four_hold _ _ _ _ acts on ((is_unexpired_iff clock g.expires_at).1 fresh)
        ((has_calls_left_iff g g.max_calls).1 left),
)

-- What an authorization decides.
abbrev pub IsDecided : ℕ → ℕ → Text → Text → Option ℕ → Db → Db → GrantDecision → Type 0
IsDecided clock run_id action resource required db db' (allowed g needs) =
    IsRowOf db.grants g
    × (g.run_id ≡ run_id)
    × IsUsable clock action resource g
    × Within required (λ id. g.id ≡ id)
    × (needs ≡ g.requires_approval)
    × (db' ≡ record db {
      grants =
          update_row CapabilityGrantRow.id g.id (λ h. record h { calls_used = h.calls_used + 1 })
            db.grants;
    })
IsDecided clock run_id action resource none db db' denied =
    (db' ≡ db) × All (λ g. g.run_id ≡ run_id → IsUsable clock action resource g → ⊥) db.grants
IsDecided clock run_id action resource (some id) db db' denied =
    (db' ≡ db)
    × All (λ g. g.run_id ≡ run_id → IsUsable clock action resource g → g.id ≢ id) db.grants

-- An authorization that is allowed used up one call of one grant and changed nothing else: the grant
-- is the run's, names the action and the resource, has not expired, had a call left, and is the one
-- required, if one was. One that is denied changed nothing, and no grant of the run, or not the one
-- required, could have been used.
pub authorize_and_consume_outcomes :
    (clock run_id : ℕ) (action resource : Text) (required : Option ℕ) (db : Db)
    (decision : GrantDecision) (db' : Db)
    → authorize_and_consume clock run_id action resource required db ≡ ok (decision, db')
    → IsDecided clock run_id action resource required db db' decision
unfolding authorize_and_consume
authorize_and_consume_outcomes clock run_id action resource none db denied db' h =
    let (nothing, same) = consume-eq-denied _ db db' h in
    (
      same,
      All-map
          (λ g f own usable.
            f ((==_iff g.run_id run_id).1 own)
              ((is_matching-IsUsable clock action resource g).1 usable))
          db.grants
          (matching_grants-eq-nil clock run_id action resource db (λ _. ⊥)
            (head-none (λ _. ⊥) _ nothing)),
    )
authorize_and_consume_outcomes clock run_id action resource (some id) db denied db' h =
    let (nothing, same) = consume-eq-denied _ db db' h in
    (
      same,
      All-map
          (λ g f own usable named.
            let other =
              f ((==_iff g.run_id run_id).1 own)
                ((is_matching-IsUsable clock action resource g).1 usable) in
            let here = (==_iff g.id id).1 named in cc)
          db.grants
          (matching_grants-eq-nil clock run_id action resource db (λ g. (g.id == id) ≡ false)
            (find-none (λ g. g.id == id) _ nothing)),
    )
authorize_and_consume_outcomes clock run_id action resource required db (allowed g needs) db' h =
    let (picked, needed, e) = consume-eq-allowed _ db g needs db' h in
    let ((there, own), matches) =
      All-pick _ required _ g (matching_grants_lem clock run_id action resource db) picked in
    (
      there,
      (==_iff g.run_id run_id).0 own,
      (is_matching-IsUsable clock action resource g).0 matches,
      pick_grant-required required _ g picked,
      needed,
      (unfold consume_call in e),
    )
