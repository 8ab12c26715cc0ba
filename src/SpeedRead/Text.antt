-- ===== src/SpeedRead/Text.antt =====
-- The text of a word in src/SpeedRead.h: `isAsciiPunct` to `endsClause`. A word is its UTF-8 bytes.
pub mod Pivot
pub mod Sentence
use crosspoint_simulator.Prelude.{
  ℕ, zero, suc, ◌+◌, ◌-◌, ◌/◌, Bool, true, false, not, ◌&&◌, ◌||◌, List, [], ◌∷◌, ◌++◌, reverse,
  leb, ltb, ◌==◌, if◌then◌else◌, length, take, drop, Bytes, starts_with,
}

unfoldable pub is_ascii_punct : ℕ → Bool
is_ascii_punct c =
    ltb c 0x80
    && not (leb b'0' c && leb c b'9' || (leb b'A' c && leb c b'Z' || leb b'a' c && leb c b'z'))

-- The quotes, dashes and the ellipsis under E2 80.
abbrev general_punct : ℕ → Bool
general_punct d =
    d == 0x98
    || (d == 0x99 || (d == 0x9c || (d == 0x9d || (d == 0x93 || (d == 0x94 || d == 0xa6)))))

unfoldable pub lead_length : ℕ → ℕ
lead_length c = if leb 0xf0 c then 4 else if leb 0xe0 c then 3 else 2

abbrev byte_or_zero : ℕ → Bytes → ℕ
byte_or_zero i [] = 0
byte_or_zero zero (b ∷ bs) = b
byte_or_zero (suc i) (b ∷ bs) = byte_or_zero i bs

-- Whether the character with first byte `c` and the bytes `rest` behind it is punctuation, and how
-- many bytes it has.
unfoldable pub is_punct_cp : ℕ → Bytes → Bool × ℕ
unfolding is_ascii_punct lead_length
is_punct_cp c rest =
    if ltb c 0x80
    then (is_ascii_punct c, 1)
    else if c == 0xe2 && (leb 2 (length rest) && byte_or_zero 0 rest == 0x80)
    then (general_punct (byte_or_zero 1 rest), 3)
    else if c == 0xc2 && leb 1 (length rest)
    then (byte_or_zero 0 rest == 0xab || byte_or_zero 0 rest == 0xbb, 2)
    else (false, lead_length c)

-- One entry for each character. `skip` is how many bytes of the last one are still to pass.
unfoldable pub punct : ℕ → Bytes → List Bool
unfolding is_punct_cp
punct skip [] = []
punct zero (c ∷ rest) = (is_punct_cp c rest).0 ∷ punct ((is_punct_cp c rest).1 - 1) rest
punct (suc skip) (c ∷ rest) = punct skip rest

pub record Anatomy : Type 0 where
  pub lead : ℕ
  pub core : ℕ
  pub trail : ℕ

-- `while (a.lead < n && punct[a.lead]) a.lead++`
unfoldable pub run_length : List Bool → ℕ
run_length [] = 0
run_length (true ∷ bs) = suc (run_length bs)
run_length (false ∷ bs) = 0

-- The second loop runs from the end, over what the first has left.
unfoldable pub split_punct : List Bool → Anatomy
unfolding run_length
split_punct p = record {
  lead = run_length p;
  core = length p - run_length p - run_length (reverse (drop (run_length p) p));
  trail = run_length (reverse (drop (run_length p) p));
}

unfoldable pub anatomy : Bytes → Anatomy
unfolding split_punct punct
anatomy w = split_punct (punct 0 w)

unfoldable pub orp_index : ℕ → ℕ
orp_index letters =
    if leb letters 1
    then 0
    else if leb letters 5
    then 1
    else if leb letters 9
    then 2
    else if leb letters 13
    then 3
    else 4

unfoldable pub orp_at : Anatomy → ℕ
unfolding orp_index
orp_at a = if a.core == 0 then (a.lead + a.trail) / 2 else a.lead + orp_index a.core

unfoldable pub orp_glyph : Bytes → ℕ
unfolding anatomy orp_at
orp_glyph w = orp_at (anatomy w)

abbrev pub ends_it : ℕ → Bool
ends_it c = c == b'.' || (c == b'!' || c == b'?')

abbrev pub closes_it : ℕ → Bool
closes_it c = c == b'"' || (c == 39 || (c == b')' || c == b']'))

-- `endsSentence` from the last byte on: the bytes come in reverse, and `skip` is what `i -= 2`
-- passes over.
unfoldable pub sentence_scan : ℕ → Bytes → Bool
sentence_scan skip [] = false
sentence_scan (suc skip) (c ∷ rest) = sentence_scan skip rest
sentence_scan zero (c ∷ rest) =
    let quoted = starts_with (0x80 ∷ 0xe2 ∷ []) rest in
    let past = sentence_scan 0 rest in
    let past_quote = sentence_scan 2 rest in
    if ends_it c
    then true
    else if closes_it c
    then past
    else if (c == 0x9d || c == 0x99) && quoted
    then past_quote
    else c == 0xa6 && quoted

unfoldable pub ends_sentence : Bytes → Bool
unfolding sentence_scan
ends_sentence w = sentence_scan 0 (reverse w)

-- The last byte, and a dash E2 80 94 or E2 80 93 at the end.
unfoldable pub clause_end : Bytes → Bool
clause_end [] = false
clause_end (c ∷ rest) =
    c == b','
    || (c == b';'
        || (c == b':' || (starts_with (0x80 ∷ 0xe2 ∷ []) rest && (c == 0x94 || c == 0x93))))

unfoldable pub ends_clause : Bytes → Bool
unfolding clause_end
ends_clause w = clause_end (reverse w)
