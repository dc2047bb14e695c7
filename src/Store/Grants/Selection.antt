-- ===== src/Store/Grants/Selection.antt =====
-- Which grants the query and the filter of `authorizeAndConsume` in src/store/grants.ts select.
use managed_agents_runtime.Prelude.{
  Within, ℕ, ◌≡◌, ◌⊎◌, inl, inr, refl, Bool, true, List, ◌∷◌, [], Option, none, some, leb, ◌==◌,
  ==_iff, All-filter, filter, find-passes, find-All, All, All-map, Bool-cases, some_injective,
}
use mathlib.Core.Path.{subst}
use managed_agents_runtime.Store.Rows.{Text, CapabilityGrantRow}
use managed_agents_runtime.Store.Database.{Db}
use managed_agents_runtime.Store.Grants.{
  is_matching, insert_by_created, sort_by_created, list_grants, head, pick_grant, matching_grants,
}

module _ (P : CapabilityGrantRow → Type 0) where
  pub All-insert :
      (g : CapabilityGrantRow) (xs : List CapabilityGrantRow)
      → P g
      → All P xs
      → All P (insert_by_created g xs)
  All-insert g [] p ps = (p, tt)
  All-insert g (x ∷ xs) p (q, ps) = elim (Bool-cases (leb g.created_at x.created_at)) [
    | inl first ↦ rw first (p, (q, ps))
    | inr later ↦ rw later (q, All-insert g xs p ps)
  ]

  pub All-sort : (xs : List CapabilityGrantRow) → All P xs → All P (sort_by_created xs)
  unfolding sort_by_created
  All-sort [] ps = tt
  All-sort (x ∷ xs) (p, ps) = All-insert x (sort_by_created xs) p (All-sort xs ps)

  pub All-pick :
      (id : Option ℕ) (xs : List CapabilityGrantRow) (g : CapabilityGrantRow)
      → All P xs
      → pick_grant id xs ≡ some g
      → P g
  All-pick none [] g ps h = absurd (cc)
  All-pick none (x ∷ xs) g (p, ps) h = subst P (some_injective x g h) p
  All-pick (some id) xs g ps h = find-All P (λ g. g.id == id) xs g h ps

module _ (P : CapabilityGrantRow → Type 0) (p : CapabilityGrantRow → Bool) where
  pub All-narrow :
      (xs : List CapabilityGrantRow) → All P xs → All (λ g. P g × (p g ≡ true)) (filter p xs)
  All-narrow [] ps = tt
  All-narrow (x ∷ xs) (q, ps) = elim (Bool-cases (p x)) [
    | inl passes ↦ rw passes ((q, passes), All-narrow xs ps)
    | inr fails ↦ rw fails (All-narrow xs ps)
  ]

abbrev pub IsRowOf : List CapabilityGrantRow → CapabilityGrantRow → Type 0
IsRowOf [] g = ⊥
IsRowOf (x ∷ xs) g = (x ≡ g) ⊎ IsRowOf xs g

pub rows_are_own : (xs : List CapabilityGrantRow) → All (IsRowOf xs) xs
rows_are_own [] = tt
rows_are_own (x ∷ xs) = (inl refl, All-map (λ g h. inr h) xs (rows_are_own xs))

pub IsRowOf-All :
    (P : CapabilityGrantRow → Type 0) (xs : List CapabilityGrantRow) (g : CapabilityGrantRow)
    → IsRowOf xs g
    → All P xs
    → P g
IsRowOf-All P [] g none_there ps = absurd none_there
IsRowOf-All P (x ∷ xs) g (inl e) (p, ps) = subst P e p
IsRowOf-All P (x ∷ xs) g (inr h) (p, ps) = IsRowOf-All P xs g h ps

-- The rows of the query are rows of the table and of the run, and they match.
pub matching_grants_lem :
    (clock run_id : ℕ) (action resource : Text) (db : Db)
    → All
        (λ g.
          (IsRowOf db.grants g × ((g.run_id == run_id) ≡ true))
          × (is_matching clock action resource g ≡ true))
        (matching_grants clock run_id action resource db)
unfolding matching_grants list_grants
matching_grants_lem clock run_id action resource db =
    let own =
      All-narrow (IsRowOf db.grants) (λ g. g.run_id == run_id) db.grants (rows_are_own db.grants) in
    All-narrow _ (is_matching clock action resource) _
      (All-sort _ (filter (λ g. g.run_id == run_id) db.grants) own)

module _ (P : CapabilityGrantRow → Type 0) where
  pub All-uninsert :
      (g : CapabilityGrantRow) (xs : List CapabilityGrantRow)
      → All P (insert_by_created g xs)
      → P g × All P xs
  All-uninsert g [] (p, ps) = (p, ps)
  All-uninsert g (x ∷ xs) h = elim (Bool-cases (leb g.created_at x.created_at)) [
    | inl first ↦ let (p, (q, ps)) = rw first at h in (p, (q, ps))
    | inr later ↦
        let (q, rest) = rw later at h in let (p, ps) = All-uninsert g xs rest in (p, (q, ps))
  ]

  pub All-unsort : (xs : List CapabilityGrantRow) → All P (sort_by_created xs) → All P xs
  unfolding sort_by_created
  All-unsort [] h = tt
  All-unsort (x ∷ xs) h =
      let (p, rest) = All-uninsert x (sort_by_created xs) h in (p, All-unsort xs rest)

pub matching_grants-eq-nil :
    (clock run_id : ℕ) (action resource : Text) (db : Db)
    → (P : CapabilityGrantRow → Type 0) → All P (matching_grants clock run_id action resource db)
    → All
        (λ g. (g.run_id == run_id) ≡ true → is_matching clock action resource g ≡ true → P g)
        db.grants
unfolding matching_grants list_grants
matching_grants-eq-nil clock run_id action resource db P h =
    All-filter _ (λ g. g.run_id == run_id) db.grants
      (All-unsort _ (filter (λ g. g.run_id == run_id) db.grants)
        (All-filter P (is_matching clock action resource) _ h))

pub head-none :
    (P : CapabilityGrantRow → Type 0) (xs : List CapabilityGrantRow) → head xs ≡ none → All P xs
head-none P [] h = tt
head-none P (x ∷ xs) h = absurd (cc)

pub pick_grant-required :
    (required : Option ℕ) (xs : List CapabilityGrantRow) (g : CapabilityGrantRow)
    → pick_grant required xs ≡ some g
    → Within required (λ id. g.id ≡ id)
pick_grant-required none xs g h = tt
pick_grant-required (some k) xs g h = (==_iff g.id k).0 (find-passes (λ g. g.id == k) xs g h)
