-- ===== src/SpeedRead/Page.antt =====
-- `wordsFromPage` of src/SpeedRead.h: the words of a published page, from its text and rectangles.
pub mod Words
use crosspoint_simulator.Prelude.{
  ℕ, ◌+◌, ◌-◌, ◌*◌, ◌/◌, min, max, Bool, true, false, ◌&&◌, ◌||◌, List, [], ◌∷◌, ◌++◌, reverse, leb,
  ltb, ◌==◌, if◌then◌else◌, length, take, drop, all, is_empty, Bytes, not, ◌^◌,
}
use crosspoint_simulator.ReadAloud.{Rect}
use crosspoint_simulator.SpeedRead.Duration.{Word}

abbrev pub is_blank : ℕ → Bool
is_blank c = c == b' ' || (c == 9 || (c == 10 || c == 13))

-- The bytes that a rectangle names, cut at the end of the text.
unfoldable pub slice : Bytes → Rect → Bytes
slice utf8 r = take (min r.byte_len (length utf8 - r.byte_offset)) (drop r.byte_offset utf8)

-- A rectangle that names no text, only white space or no area starts no word.
unfoldable pub starts_word : Bytes → Rect → Bool
unfolding slice
starts_word utf8 r =
    let t = slice utf8 r in
    if leb (length utf8) r.byte_offset
    then false
    else not (is_empty t || (all is_blank t || (r.w == 0 || r.h == 0)))

-- `words.back().frags.front().byteOffset == r.byteOffset`
abbrev pub starts_at : List Rect → ℕ → Bool
starts_at [] offset = false
starts_at (f ∷ fs) offset = f.byte_offset == offset

unfoldable pub new_word : Bytes → List Word → Rect → List Word
unfolding starts_word
new_word utf8 words r =
    if starts_word utf8 r
    then record { text = slice utf8 r; frags = r ∷ []; paragraph_end = false } ∷ words
    else words

-- One round of the loop over the rectangles. The words are kept last first.
unfoldable pub add_rect : Bytes → List Word → Rect → List Word
unfolding new_word
add_rect utf8 [] r = new_word utf8 [] r
add_rect utf8 (w ∷ words) r =
    if starts_at w.frags r.byte_offset
    then record w { frags = w.frags ++ r ∷ [] } ∷ words
    else new_word utf8 (w ∷ words) r

unfoldable pub add_rects : Bytes → List Word → List Rect → List Word
unfolding add_rect
add_rects utf8 words [] = words
add_rects utf8 words (r ∷ rects) = add_rects utf8 (add_rect utf8 words r) rects

abbrev pub no_rect : Rect
no_rect = record { x = 0; y = 0; w = 0; h = 0; byte_offset = 0; byte_len = 0 }

abbrev pub front : List Rect → Rect
front [] = no_rect
front (f ∷ fs) = f

abbrev pub back : List Rect → Rect
back [] = no_rect
back (f ∷ []) = f
back (f ∷ g ∷ fs) = back (g ∷ fs)

unfoldable pub rects_left : ℕ → List Rect → ℕ
rects_left m [] = m
rects_left m (f ∷ fs) = rects_left (min m f.x) fs

unfoldable pub rects_right : ℕ → List Rect → ℕ
rects_right m [] = m
rects_right m (f ∷ fs) = rects_right (max m (f.x + f.w)) fs

unfoldable pub min_x : ℕ → List Word → ℕ
unfolding rects_left
min_x m [] = m
min_x m (w ∷ ws) = min_x (rects_left m w.frags) ws

unfoldable pub max_right : ℕ → List Word → ℕ
unfolding rects_right
max_right m [] = m
max_right m (w ∷ ws) = max_right (rects_right m w.frags) ws

abbrev one_frag : List Rect → Bool
one_frag (f ∷ []) = true
one_frag _ = false

-- Whether a line break between `a` and `b`, the last and first fragments of two words, ends a
-- paragraph. `b.y - a.y` is negative where the subtraction here is 0: both fail the test.
unfoldable pub breaks : ℕ → ℕ → Rect → Rect → Bool → Bool
breaks left right a b whole =
    let h = max 1 a.h in
    (whole && leb (a.x + a.w + h / 4 + b.w) right)
    || (ltb (left + h / 3) b.x || ltb (h * 14) ((b.y - a.y) * 10))

abbrev last_ends : ℕ → ℕ → Rect → Bool
last_ends left right z = ltb (right - left) ((right - (z.x + z.w)) * 4)

unfoldable pub mark_ends : ℕ → ℕ → List Word → List Word
unfolding breaks
mark_ends left right [] = []
mark_ends left right (w ∷ []) =
    record w { paragraph_end = last_ends left right (back w.frags) } ∷ []
mark_ends left right (w ∷ v ∷ ws) =
    let a = back w.frags in
    let b = front v.frags in
    record w {
      paragraph_end =
          if b.y == a.y then w.paragraph_end else breaks left right a b (one_frag v.frags);
    }
    ∷ mark_ends left right (v ∷ ws)

unfoldable pub words_from_page : Bytes → List Rect → List Word
unfolding add_rects min_x max_right mark_ends
words_from_page utf8 rects =
    let words = reverse (add_rects utf8 [] rects) in
    mark_ends (min_x (2 ^ 30) words) (max_right 0 words) words
