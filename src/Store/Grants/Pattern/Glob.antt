-- ===== src/Store/Grants/Pattern/Glob.antt =====
-- What a pattern of src/store/grants.ts matches, read off the pattern itself.
use managed_agents_runtime.Prelude.{
  ℕ, ◌≡◌, ◌↔◌, sym, ap, ◌∙◌, refl, inl, inr, Bool, true, false, ◌&&◌, List, ◌∷◌, [], ◌++◌, arith,
  if◌then◌else◌, ◌==◌, All, Bool-cases, and-parts, ==_refl,
}
use mathlib.Core.Path.{subst}
use managed_agents_runtime.Store.Rows.{Text}
use managed_agents_runtime.Store.Grants.Pattern.{
  split, is_line_end, skip_then, matches, pattern_matches,
}

-- A value is in the language of a pattern: a star stands for any text on one line, and any other
-- character for itself.
abbrev Stars : (Text → Type 0) → Text → Type 0
Stars rest value =
    (skipped left : Text) × (value ≡ skipped ++ left)
    × All (λ c. is_line_end c ≡ false) skipped
    × rest left

abbrev Literal : ℕ → (Text → Type 0) → Text → Type 0
Literal c rest value = (left : Text) × (value ≡ c ∷ left) × rest left

abbrev pub IsGlob : Text → Text → Type 0
IsGlob [] value = value ≡ []
IsGlob (c ∷ pattern) value =
    let rest = IsGlob pattern in if c == 42 then Stars rest value else Literal c rest value

skip_then_sound :
    (rest : Text → Bool) (value : Text)
    → skip_then rest value ≡ true
    → Stars (λ left. rest left ≡ true) value
unfolding skip_then
skip_then_sound rest [] h = ([], [], refl, tt, h)
skip_then_sound rest (c ∷ cs) h = elim (Bool-cases (rest (c ∷ cs))) [
  | inl here ↦ ([], c ∷ cs, refl, tt, here)
  | inr later ↦
      let (skipped, left, e, on_line, passes) = skip_then_sound rest cs (ground arith) in
      (c ∷ skipped, left, ap (λ v. c ∷ v) e, (ground arith, on_line), passes)
]

skip_then_complete :
    (rest : Text → Bool) (skipped left : Text)
    → All (λ c. is_line_end c ≡ false) skipped
    → rest left ≡ true
    → skip_then rest (skipped ++ left) ≡ true
unfolding skip_then
skip_then_complete rest [] [] on_line passes = passes
skip_then_complete rest [] (c ∷ cs) on_line passes = ground arith
skip_then_complete rest (c ∷ skipped) left (one, on_line) passes =
    ground (arith, skip_then_complete rest skipped left on_line passes)

matches-literal :
    (others : List Text) (c d : ℕ) (cs ds : Text)
    → matches others (c ∷ cs) (d ∷ ds) ≡ ((c == d) && matches others cs ds)
unfolding matches
matches-literal [] c d cs ds = refl
matches-literal (s ∷ others) c d cs ds = refl

matches-literal_end : (others : List Text) (c : ℕ) (cs : Text) → matches others (c ∷ cs) [] ≡ false
unfolding matches
matches-literal_end [] c cs = refl
matches-literal_end (s ∷ others) c cs = refl

star_lem :
    (c : ℕ) (cs value : Text)
    → (c == 42) ≡ true
    → pattern_matches (c ∷ cs) value ≡ skip_then (pattern_matches cs) value
unfolding pattern_matches split matches
star_lem c cs value h = rw (h)

literal_lem :
    (c d : ℕ) (cs ds : Text)
    → (c == 42) ≡ false
    → pattern_matches (c ∷ cs) (d ∷ ds) ≡ ((c == d) && pattern_matches cs ds)
unfolding pattern_matches split
literal_lem c d cs ds h = rw (h, matches-literal (split cs).1 c d (split cs).0 ds)

literal_end_lem : (c : ℕ) (cs : Text) → (c == 42) ≡ false → pattern_matches (c ∷ cs) [] ≡ false
unfolding pattern_matches split
literal_end_lem c cs h = rw (h, matches-literal_end (split cs).1 c (split cs).0)

empty_lem : (value : Text) → pattern_matches [] value ≡ true → value ≡ []
unfolding pattern_matches split matches
empty_lem [] h = refl
empty_lem (d ∷ ds) h = absurd (cc)

empty_matches : pattern_matches [] [] ≡ true
unfolding pattern_matches split matches
empty_matches = refl

Literal-sound :
    (c : ℕ) (cs value : Text)
    → (c == 42) ≡ false
    → pattern_matches (c ∷ cs) value ≡ true
    → Literal c (λ left. pattern_matches cs left ≡ true) value
Literal-sound c cs [] literal k = absurd (cc (literal_end_lem c cs literal))
Literal-sound c cs (d ∷ ds) literal k =
    let (same, passes) = and-parts (c == d) _ (sym (literal_lem c d cs ds literal) ∙ k) in
    let e : d ≡ c = ground arith in (ds, ap (λ x. x ∷ ds) e, passes)

sound : (pattern value : Text) → pattern_matches pattern value ≡ true → IsGlob pattern value
sound [] value h = empty_lem value h
sound (c ∷ cs) value h = elim (Bool-cases (c == 42)) [
  | inl star ↦
      let (skipped, left, e, on_line, passes) =
        skip_then_sound (pattern_matches cs) value (sym (star_lem c cs value star) ∙ h) in
      rw star (skipped, left, e, on_line, sound cs left passes)
  | inr literal ↦
      let (left, e, passes) = Literal-sound c cs value literal h in
      rw literal (left, e, sound cs left passes)
]

complete : (pattern value : Text) → IsGlob pattern value → pattern_matches pattern value ≡ true
complete [] value h = subst (λ v. pattern_matches [] v ≡ true) (sym h) empty_matches
complete (c ∷ cs) value h = elim (Bool-cases (c == 42)) [
  | inl star ↦
      let (skipped, left, e, on_line, globs) : Stars (IsGlob cs) value = rw star at h in
      star_lem c cs value star
      ∙ ap (skip_then (pattern_matches cs)) e
      ∙ skip_then_complete (pattern_matches cs) skipped left on_line (complete cs left globs)
  | inr literal ↦
      let (left, e, globs) : Literal c (IsGlob cs) value = rw literal at h in
      ap (pattern_matches (c ∷ cs)) e
      ∙ literal_lem c c cs left literal
      ∙ rw (==_refl c, complete cs left globs)
]

-- A pattern matches exactly the values of its language: each star any text without a line end, each
-- other character itself, from the first to the last.
pub pattern_matches_iff :
    (pattern value : Text) → (pattern_matches pattern value ≡ true) ↔ IsGlob pattern value
pattern_matches_iff pattern value = (sound pattern value, complete pattern value)
