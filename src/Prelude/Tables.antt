-- ===== src/Prelude/Tables.antt =====
-- A database table as the list of its rows, read and written through a numeric key.
use Prim.Native.Nat.{ℕ, ◌≤◌}
use mathlib.Core.Path.{◌≡◌, sym, subst}
use mathlib.Core.Logic.{inl, inr}
use mathlib.Core.Bool.{Bool, true, false}
use mathlib.Core.List.{List, [], ◌∷◌}
use mathlib.Core.Option
use mathlib.Core.Option.{Option, none, some}
use native.Mathlib.Omega.{arith}
use managed_agents_runtime.Prelude.Tests.{◌==◌, if◌then◌else◌, Bool-cases}
use managed_agents_runtime.Prelude.Lists.{length, filter, any, Some}

module _ {A : Type 0} where
  -- `UPDATE … WHERE p`.
  abbrev pub update_where : (A → Bool) → (A → A) → List A → List A
  update_where p f [] = []
  update_where p f (x ∷ xs) = (if p x then f x else x) ∷ update_where p f xs

  -- `SELECT … WHERE key = k`.
  abbrev pub row : (A → ℕ) → ℕ → List A → Option A
  row key k [] = none
  row key k (x ∷ xs) = if key x == k then some x else row key k xs

  -- `UPDATE … WHERE key = k`.
  abbrev pub update_row : (A → ℕ) → ℕ → (A → A) → List A → List A
  update_row key k f = update_where (λ x. key x == k) f

  -- An update that keeps the keys changes the row of its own key, and no other.
  pub row-update_row :
      (key : A → ℕ) (k j : ℕ) (f : A → A) (xs : List A)
      → ((x : A) → key (f x) ≡ key x)
      → row key j (update_row key k f xs)
        ≡ (if k == j then Option.map f (row key j xs) else row key j xs)
  row-update_row key k j f [] keeps = ground arith
  row-update_row key k j f (x ∷ xs) keeps =
      ground (arith, keeps x, row-update_row key k j f xs keeps)

  pub row-key : (key : A → ℕ) (k : ℕ) (xs : List A) (x : A) → row key k xs ≡ some x → key x ≡ k
  row-key key k [] x h = ground arith
  row-key key k (y ∷ xs) x h = ground (arith, row-key key k xs x)

  -- The row of a key after an update by any test.
  pub row-update_where :
      (key : A → ℕ) (q : A → Bool) (f : A → A) (j : ℕ) (xs : List A)
      → ((x : A) → key (f x) ≡ key x)
      → row key j (update_where q f xs) ≡ Option.map (λ x. if q x then f x else x) (row key j xs)
  row-update_where key q f j [] keeps = ground arith
  row-update_where key q f j (x ∷ xs) keeps =
      ground (arith, keeps x, row-update_where key q f j xs keeps)

  pub row-own :
      (key : A → ℕ) (k : ℕ) (xs : List A) (x : A)
      → row key k xs ≡ some x
      → row key (key x) xs ≡ some x
  row-own key k xs x found =
      subst (λ j. row key j xs ≡ some x) (sym (row-key key k xs x found)) found

  -- An update of the rows that a filter rejects, and that it still rejects, is not seen by it.
  pub filter-update_where :
      (p q : A → Bool) (f : A → A) (xs : List A)
      → ((x : A) → q x ≡ true → p (f x) ≡ false)
      → length (filter p (update_where q f xs)) ≤ length (filter p xs)
  filter-update_where p q f [] gone = omega arith
  filter-update_where p q f (x ∷ xs) gone =
      ground (arith, gone x, filter-update_where p q f xs gone)

  -- An update of a row that is there leaves a row of its making.
  pub Some-update_where :
      (P : A → Type 0) (q : A → Bool) (f : A → A) (xs : List A)
      → ((x : A) → P (f x))
      → any q xs ≡ true
      → Some P (update_where q f xs)
  Some-update_where P q f [] makes there = absurd (cc)
  Some-update_where P q f (x ∷ xs) makes there = elim (Bool-cases (q x)) [
    | inl here ↦ inl (rw here (makes x))
    | inr later ↦ inr (Some-update_where P q f xs makes (ground arith))
  ]
