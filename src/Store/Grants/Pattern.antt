-- ===== src/Store/Grants/Pattern.antt =====
-- `patternMatches` of src/store/grants.ts: the regular expression `^s₀.*s₁.*…$` of the segments
-- between the stars of a pattern. `.` matches any code unit but a line terminator.
pub mod Glob
use managed_agents_runtime.Prelude.{
  ℕ, Bool, true, false, not, ◌&&◌, ◌||◌, List, ◌∷◌, [], if◌then◌else◌, ◌==◌,
}
use managed_agents_runtime.Store.Rows.{Text}

-- `pattern.split('*')`: the first segment and the others. 42 is `*`.
unfoldable pub split : Text → Text × List Text
split [] = ([], [])
split (c ∷ cs) =
    let (segment, others) = split cs in
    if c == 42 then ([], segment ∷ others) else (c ∷ segment, others)

-- `\n`, `\r` and the separators of lines and paragraphs.
abbrev pub is_line_end : ℕ → Bool
is_line_end c = (c == 10) || (c == 13) || (c == 8232) || (c == 8233)

-- `.*` and then what `rest` accepts.
unfoldable pub skip_then : (Text → Bool) → Text → Bool
skip_then rest [] = rest []
skip_then rest (c ∷ cs) = rest (c ∷ cs) || (not (is_line_end c) && skip_then rest cs)

-- The first segment, then each of the others after a `.*`, up to the end.
unfoldable pub matches : List Text → Text → Text → Bool
unfolding skip_then
matches [] [] [] = true
matches [] [] (d ∷ ds) = false
matches (s ∷ others) [] value = skip_then (matches others s) value
matches others (c ∷ cs) [] = false
matches others (c ∷ cs) (d ∷ ds) = (c == d) && matches others cs ds

unfoldable pub pattern_matches : Text → Text → Bool
unfolding split matches
pattern_matches pattern value =
    let (segment, others) = split pattern in matches others segment value
