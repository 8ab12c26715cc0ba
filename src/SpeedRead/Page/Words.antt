-- ===== src/SpeedRead/Page/Words.antt =====
-- What `wordsFromPage` makes of a page.
use crosspoint_simulator.Prelude.{
  ℕ, List, [], ◌∷◌, ◌++◌, reverse, All, Bytes, if-cases, ◌≡◌, true, refl, ap, All-append, subst,
  sym, ==_iff, ◌∙◌,
}
use mathlib.Core.List.{reverse-cons}
use crosspoint_simulator.ReadAloud.{Rect}
use crosspoint_simulator.SpeedRead.Duration.{Word}
use crosspoint_simulator.SpeedRead.Page.{
  slice, starts_word, new_word, add_rect, add_rects, mark_ends, words_from_page, starts_at,
}

-- A word of a page: a first fragment that names text with an ink and an area, and further ones that
-- name the same place in the text.
abbrev pub WordOf : Bytes → Word → Type 0
WordOf utf8 w =
    (f : Rect) × (fs : List Rect) × (w.frags ≡ f ∷ fs)
    × (w.text ≡ slice utf8 f)
    × (starts_word utf8 f ≡ true)
    × All (λ g. g.byte_offset ≡ f.byte_offset) fs

new_word-WordOf :
    (utf8 : Bytes) (words : List Word) (r : Rect)
    → All (WordOf utf8) words
    → All (WordOf utf8) (new_word utf8 words r)
unfolding new_word
new_word-WordOf utf8 words r h =
    if-cases (All (WordOf utf8)) (starts_word utf8 r) (λ k. ((r, [], refl, refl, k, tt), h))
      (λ k. h)

extend-WordOf :
    (utf8 : Bytes) (w : Word) (r : Rect)
    → WordOf utf8 w
    → starts_at w.frags r.byte_offset ≡ true
    → WordOf utf8 (record w { frags = w.frags ++ r ∷ [] })
extend-WordOf utf8 w r (f, fs, e, t, s, a) k = (
  f,
  fs ++ r ∷ [],
  ap (λ q. q ++ r ∷ []) e,
  t,
  s,
  All-append (λ g. g.byte_offset ≡ f.byte_offset) fs (r ∷ []) a
      (
        sym (
            (==_iff f.byte_offset r.byte_offset).0
              (sym (ap (λ q. starts_at q r.byte_offset) e) ∙ k)),
        tt,
      ),
)

add_rect-WordOf :
    (utf8 : Bytes) (words : List Word) (r : Rect)
    → All (WordOf utf8) words
    → All (WordOf utf8) (add_rect utf8 words r)
unfolding add_rect
add_rect-WordOf utf8 [] r h = new_word-WordOf utf8 [] r h
add_rect-WordOf utf8 (w ∷ words) r h =
    if-cases (All (WordOf utf8)) (starts_at w.frags r.byte_offset)
      (λ k. (extend-WordOf utf8 w r h.0 k, h.1)) (λ k. new_word-WordOf utf8 (w ∷ words) r h)

add_rects-WordOf :
    (utf8 : Bytes) (words : List Word) (rects : List Rect)
    → All (WordOf utf8) words
    → All (WordOf utf8) (add_rects utf8 words rects)
unfolding add_rects
add_rects-WordOf utf8 words [] h = h
add_rects-WordOf utf8 words (r ∷ rects) h =
    add_rects-WordOf utf8 (add_rect utf8 words r) rects (add_rect-WordOf utf8 words r h)

reverse-All : {A : Type 0} (P : A → Type 0) (xs : List A) → All P xs → All P (reverse xs)
reverse-All P [] h = tt
reverse-All P (x ∷ xs) h =
    subst (All P) (sym (reverse-cons x xs))
      (All-append P (reverse xs) (x ∷ []) (reverse-All P xs h.1) (h.0, tt))

mark_ends-WordOf :
    (utf8 : Bytes) (left right : ℕ) (words : List Word)
    → All (WordOf utf8) words
    → All (WordOf utf8) (mark_ends left right words)
unfolding mark_ends
mark_ends-WordOf utf8 left right [] h = tt
mark_ends-WordOf utf8 left right (w ∷ []) h = (h.0, tt)
mark_ends-WordOf utf8 left right (w ∷ v ∷ words) h =
    (h.0, mark_ends-WordOf utf8 left right (v ∷ words) h.1)

-- Every word of a page has a first fragment that names bytes of the page's text, not all of them
-- white space, and that has an area; its text is those bytes, and its further fragments, the parts
-- of a word that the layout has split, name the same place in the text.
pub words_from_page-WordOf :
    (utf8 : Bytes) (rects : List Rect) → All (WordOf utf8) (words_from_page utf8 rects)
unfolding words_from_page
words_from_page-WordOf utf8 rects =
    let words = add_rects utf8 [] rects in
    mark_ends-WordOf utf8 _ _ (reverse words)
      (reverse-All (WordOf utf8) words (add_rects-WordOf utf8 [] rects tt))
