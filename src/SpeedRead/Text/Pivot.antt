-- ===== src/SpeedRead/Text/Pivot.antt =====
-- The pivot letter lies within its word.
use crosspoint_simulator.Prelude.{
  ℕ, ◌+◌, ◌≤◌, ◌<◌, ◌≡◌, Bool, true, false, List, [], ◌∷◌, reverse, arith, length, drop, Bytes,
  length-drop, length-reverse,
}
use crosspoint_simulator.SpeedRead.Text.{
  punct, Anatomy, run_length, split_punct, anatomy, orp_index, orp_glyph, orp_at,
}

run_length-le : (p : List Bool) → run_length p ≤ length p
unfolding run_length
run_length-le [] = omega arith
run_length-le (true ∷ p) = omega (arith, run_length-le p)
run_length-le (false ∷ p) = omega arith

-- A word is its leading punctuation, its core and its trailing punctuation, and no part overlaps.
pub split_punct_total :
    (p : List Bool) → (split_punct p).lead + (split_punct p).core + (split_punct p).trail ≡ length p
unfolding split_punct
split_punct_total p =
    let rest = drop (run_length p) p in
    omega (
      arith,
      run_length-le p,
      run_length-le (reverse rest),
      length-reverse rest,
      length-drop (run_length p) p,
    )

orp_index-lt : (letters : ℕ) → 0 < letters → orp_index letters < letters
unfolding orp_index
orp_index-lt letters h = ground arith

orp_at-lt : (a : Anatomy) (n : ℕ) → a.lead + a.core + a.trail ≡ n → 0 < n → orp_at a < n
unfolding orp_at
orp_at-lt a n e h = ground (arith, orp_index-lt a.core)

-- The letter that the eye is held on is one of the word's characters, whatever the word is made of:
-- its leading punctuation, core and trailing punctuation add up to it and do not overlap.
orp_glyph-lt :
    (w : Bytes)
    → 0 < length (punct 0 w)
    → ((anatomy w).lead + (anatomy w).core + (anatomy w).trail ≡ length (punct 0 w))
      × (orp_glyph w < length (punct 0 w))
unfolding orp_glyph
orp_glyph-lt w h =
    let parts = split_punct_total (punct 0 w) in
    (parts, orp_at-lt (split_punct (punct 0 w)) (length (punct 0 w)) parts h)
