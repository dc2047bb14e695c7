-- ===== src/Store/ChildLineage/Root.antt =====
-- `rootOf` of src/store/childLineage.ts: the loop over the runs that a run replaces.
use managed_agents_runtime.Prelude.{
  ℕ, zero, suc, ◌+◌, ◌≡◌, ◌≤◌, ◌<◌, ◌≢◌, ◌↔◌, ◌⊎◌, inl, inr, refl, sym, ap, ◌∙◌, true, false, not,
  List, ◌∷◌, [], none, some, arith, ◌==◌, ==_iff, Bool-cases, Option-cases, length, filter, row-own,
  All, All-map, some_injective,
}
use mathlib.Core.Path.{subst}
use managed_agents_runtime.Store.ChildLineage.{
  ChildRow, includes, by_id, Walk, root, cycle, missing, out_of_fuel, walk, root_of,
}

-- The rows that the loop has not visited.
abbrev unvisited : List ℕ → List ChildRow → ℕ
unvisited visited rows = length (filter (λ r. not (includes r.id visited)) rows)

fewer :
    (v : ℕ) (visited : List ℕ) (rows : List ChildRow)
    → unvisited (v ∷ visited) rows ≤ unvisited visited rows
fewer v visited [] = omega arith
fewer v visited (r ∷ rows) = ground (arith, fewer v visited rows)

visits :
    (r : ChildRow) (visited : List ℕ) (rows : List ChildRow)
    → by_id rows r.id ≡ some r
    → includes r.id visited ≡ false
    → unvisited (r.id ∷ visited) rows < unvisited visited rows
visits r visited [] h new = absurd (cc)
visits r visited (x ∷ rows) h new = elim (Bool-cases (x.id == r.id)) [
  | inl here ↦
      let same : r.id ≡ x.id = ground arith in
      let fresh : includes x.id visited ≡ false =
        subst (λ id. includes id visited ≡ false) same new in
      let less = fewer r.id visited rows in ground arith
  | inr other ↦ let less = visits r visited rows (ground arith) new in ground arith
]

all_unvisited : (rows : List ChildRow) → unvisited [] rows < length rows + 1
all_unvisited [] = omega arith
all_unvisited (r ∷ rows) = omega (arith, all_unvisited rows)

-- A row stands in the map for its own id.
abbrev pub IsRow : List ChildRow → ChildRow → Type 0
IsRow rows r = by_id rows r.id ≡ some r

-- The four ways in which a round of the loop ends.
data Round (rows : List ChildRow) (visited : List ℕ) (cursor : ChildRow) : Type 0 where
  at_root : cursor.replaces_run_id ≡ none → Round rows visited cursor
  at_cycle :
      (p : ℕ)
      → cursor.replaces_run_id ≡ some p
      → includes cursor.id visited ≡ true
      → Round rows visited cursor
  at_gap :
      (p : ℕ)
      → cursor.replaces_run_id ≡ some p
      → includes cursor.id visited ≡ false
      → by_id rows p ≡ none
      → Round rows visited cursor
  goes_to :
      (p : ℕ) (previous : ChildRow)
      → cursor.replaces_run_id ≡ some p
      → includes cursor.id visited ≡ false
      → by_id rows p ≡ some previous
      → Round rows visited cursor

rounds : (rows : List ChildRow) (visited : List ℕ) (cursor : ChildRow) → Round rows visited cursor
rounds rows visited cursor = elim (Option-cases cursor.replaces_run_id) [
  | inl e ↦ at_root e
  | inr (p, e) ↦ elim (Bool-cases (includes cursor.id visited)) [
    | inl again ↦ at_cycle p e again
    | inr new ↦ elim (Option-cases (by_id rows p)) [
      | inl gone ↦ at_gap p e new gone
      | inr (previous, found) ↦ goes_to p previous e new found
    ]
  ]
]

-- What the loop does in each of them.
abbrev end_of :
    (fuel : ℕ) (rows : List ChildRow) (visited : List ℕ) (cursor : ChildRow)
    → Round rows visited cursor
    → Walk
end_of fuel rows visited cursor (at_root _) = root cursor.id
end_of fuel rows visited cursor (at_cycle _ _ _) = cycle cursor.id
end_of fuel rows visited cursor (at_gap _ _ _ _) = missing cursor.id
end_of fuel rows visited cursor (goes_to _ previous _ _ _) =
    walk fuel rows (cursor.id ∷ visited) previous

walk_unfolded :
    (fuel : ℕ) (rows : List ChildRow) (visited : List ℕ) (cursor : ChildRow)
    (r : Round rows visited cursor)
    → walk (suc fuel) rows visited cursor ≡ end_of fuel rows visited cursor r
unfolding walk
walk_unfolded fuel rows visited cursor (at_root e) = ground arith
walk_unfolded fuel rows visited cursor (at_cycle p e again) = ground arith
walk_unfolded fuel rows visited cursor (at_gap p e new gone) = ground arith
walk_unfolded fuel rows visited cursor (goes_to p previous e new found) = ground arith

found-IsRow :
    (rows : List ChildRow) (p : ℕ) (previous : ChildRow)
    → by_id rows p ≡ some previous
    → IsRow rows previous
found-IsRow rows p previous found = row-own ChildRow.id p rows previous found

-- With fuel for the rows that are not visited, and one more, the loop ends.
walk_ends :
    (fuel : ℕ) (rows : List ChildRow) (visited : List ℕ) (cursor : ChildRow)
    → IsRow rows cursor
    → unvisited visited rows < fuel
    → walk fuel rows visited cursor ≢ out_of_fuel
walk_ends zero rows visited cursor known enough = absurd (omega arith)
walk_ends (suc fuel) rows visited cursor known enough = elim (rounds rows visited cursor) [
  | at_root e ↦ rw (walk_unfolded fuel rows visited cursor (at_root e)) (λ h. cc)
  | at_cycle p e again ↦ rw (walk_unfolded fuel rows visited cursor (at_cycle p e again)) (λ h. cc)
  | at_gap p e new gone ↦
      rw (walk_unfolded fuel rows visited cursor (at_gap p e new gone)) (λ h. cc)
  | goes_to p previous e new found ↦
      let less = visits cursor visited rows known new in
      rw (walk_unfolded fuel rows visited cursor (goes_to p previous e new found)) (
        walk_ends fuel rows (cursor.id ∷ visited) previous (found-IsRow rows p previous found)
          (omega arith))
]

-- The runs that a row replaces lead, in so many steps, to a run that replaces none.
pub data LeadsTo (rows : List ChildRow) : ChildRow → ℕ → ℕ → Type 0 where
  here : (r : ChildRow) → r.replaces_run_id ≡ none → LeadsTo rows r 0 r.id
  back :
      (r previous : ChildRow) (p steps id : ℕ)
      → r.replaces_run_id ≡ some p
      → by_id rows p ≡ some previous
      → LeadsTo rows previous steps id
      → LeadsTo rows r (suc steps) id

walk_sound :
    (fuel : ℕ) (rows : List ChildRow) (visited : List ℕ) (cursor : ChildRow) (id : ℕ)
    → walk fuel rows visited cursor ≡ root id
    → (steps : ℕ) × LeadsTo rows cursor steps id
unfolding walk
walk_sound zero rows visited cursor id h = absurd (cc)
walk_sound (suc fuel) rows visited cursor id h = elim (rounds rows visited cursor) [
  | at_root e ↦
      let step = walk_unfolded fuel rows visited cursor (at_root e) in
      let at : cursor.id ≡ id = cc in (0, subst (LeadsTo rows cursor 0) at (here cursor e))
  | at_cycle p e again ↦
      let step = walk_unfolded fuel rows visited cursor (at_cycle p e again) in absurd (cc)
  | at_gap p e new gone ↦
      let step = walk_unfolded fuel rows visited cursor (at_gap p e new gone) in absurd (cc)
  | goes_to p previous e new found ↦
      let (steps, leads) =
        walk_sound fuel rows (cursor.id ∷ visited) previous id
          (sym (walk_unfolded fuel rows visited cursor (goes_to p previous e new found)) ∙ h) in
      (suc steps, back cursor previous p steps id e found leads)
]

leads_same :
    (rows : List ChildRow) (r : ChildRow) (m n a b : ℕ)
    → LeadsTo rows r m a
    → LeadsTo rows r n b
    → m ≡ n
leads_same rows r m n a b (here _ e) (here _ e') = refl
leads_same rows r m n a b (here _ e) (back _ previous p steps _ e' found leads) = absurd (cc)
leads_same rows r m n a b (back _ previous p steps _ e found leads) (here _ e') = absurd (cc)
leads_same rows r m n a b (back _ previous p steps _ e found leads)
      (back _ previous' p' steps' _ e' found' leads') =
    let same_id : p ≡ p' = cc in
    let same : previous' ≡ previous = cc in
    ap suc (
      leads_same rows previous steps steps' a b leads
        (subst (λ q. LeadsTo rows q steps' b) same leads'))

-- A visited run is further from its root than `steps`.
abbrev IsBehind : List ChildRow → ℕ → ℕ → Type 0
IsBehind rows steps v =
    (r : ChildRow) × (m : ℕ) × (a : ℕ) × IsRow rows r
    × (r.id ≡ v)
    × (steps < m)
    × LeadsTo rows r m a

includes-All :
    (P : ℕ → Type 0) (id : ℕ) (visited : List ℕ) → includes id visited ≡ true → All P visited → P id
includes-All P id [] h ps = absurd (cc)
includes-All P id (v ∷ visited) h (p, ps) = elim (Bool-cases (v == id)) [
  | inl same ↦ subst P ((==_iff v id).0 same) p
  | inr other ↦ includes-All P id visited (ground arith) ps
]

not_visited :
    (rows : List ChildRow) (visited : List ℕ) (r : ChildRow) (steps id : ℕ)
    → IsRow rows r
    → LeadsTo rows r steps id
    → All (IsBehind rows steps) visited
    → includes r.id visited ≡ false
not_visited rows visited r steps id known leads behind = elim (Bool-cases (includes r.id visited)) [
  | inr new ↦ new
  | inl again ↦
      let (q, m, a, known', same_id, further, leads') =
        includes-All (IsBehind rows steps) r.id visited again behind in
      let same : q ≡ r = some_injective q r (sym known' ∙ ap (by_id rows) same_id ∙ known) in
      let e = leads_same rows r m steps a id (subst (λ x. LeadsTo rows x m a) same leads') leads in
      absurd (omega arith)
]

walk_complete :
    (fuel : ℕ) (rows : List ChildRow) (visited : List ℕ) (cursor : ChildRow) (steps id : ℕ)
    → IsRow rows cursor
    → LeadsTo rows cursor steps id
    → All (IsBehind rows steps) visited
    → (walk fuel rows visited cursor ≡ root id) ⊎ (walk fuel rows visited cursor ≡ out_of_fuel)
unfolding walk
walk_complete zero rows visited cursor steps id known leads behind = inr refl
walk_complete (suc fuel) rows visited cursor _ id known (here _ e) behind =
    inl (walk_unfolded fuel rows visited cursor (at_root e))
walk_complete (suc fuel) rows visited cursor _ id known (back _ previous p steps _ e found leads)
      behind =
    let new =
      not_visited rows visited cursor (suc steps) id known
        (back cursor previous p steps id e found leads) behind in
    let own : IsBehind rows steps cursor.id = (
      cursor,
      suc steps,
      id,
      known,
      refl,
      omega arith,
      back cursor previous p steps id e found leads,
    ) in
    rw (walk_unfolded fuel rows visited cursor (goes_to p previous e new found)) (
      walk_complete fuel rows (cursor.id ∷ visited) previous steps id
        (found-IsRow rows p previous found) leads
        (
          own,
          All-map (λ v (q, m, a, k, i, further, l). (q, m, a, k, i, omega arith, l)) visited behind,
        ))

-- From a row of the rows that are read, the loop of `rootOf` always ends. It gives a run exactly if
-- the runs replaced lead, one after another, to that run, which replaces none: no cycle and no
-- missing predecessor is reported where there is none.
pub root_of-root_iff :
    (rows : List ChildRow) (r : ChildRow) (id : ℕ)
    → by_id rows r.id ≡ some r
    → (root_of rows r ≢ out_of_fuel)
      × ((root_of rows r ≡ root id) ↔ ((steps : ℕ) × LeadsTo rows r steps id))
unfolding root_of
root_of-root_iff rows r id known = (
  ends,
  (
    walk_sound (length rows + 1) rows [] r id,
    λ (steps, leads). elim (walk_complete (length rows + 1) rows [] r steps id known leads tt) [
      | inl found ↦ found
      | inr out ↦ absurd (ends out)
    ],
  ),
)
  where
    ends : walk (length rows + 1) rows [] r ≢ out_of_fuel
    ends = walk_ends (length rows + 1) rows [] r known (all_unvisited rows)
