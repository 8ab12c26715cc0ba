-- ===== src/ReadAloud/Speech/Words.antt =====
-- The word at a byte of the text, as ios/ReadAloudCore.cpp looks for it from its cursor.
use crosspoint_simulator.Prelude.{
  ℕ, zero, suc, ◌+◌, ◌≤◌, ◌<◌, ◌^◌, Bool, true, ◌&&◌, List, [], ◌∷◌, Option, none, some, ◌≡◌, ◌⊎◌,
  inl, inr, ◌∙◌, refl, sym, ap, arith, All, ltb, leb, drop, is_empty, if◌then◌else◌, if-cases,
  subst, ap₂,
}
use crosspoint_simulator.ReadAloud.{Rect}
use crosspoint_simulator.ReadAloud.Speech.{Core, scan, start_cursor, found, rect_containing}

abbrev pub range_of : Rect → ℕ × ℕ
range_of r = (r.byte_offset, r.byte_len)

abbrev pub holds : ℕ → Rect → Bool
holds offset r = leb r.byte_offset offset && ltb offset (r.byte_offset + r.byte_len)

-- The range of the first rect that holds the byte, in a search through all of them.
unfoldable pub word_at : List Rect → ℕ → Option (ℕ × ℕ)
word_at [] offset = none
word_at (r ∷ rs) offset =
    let rest = word_at rs offset in if holds offset r then some (range_of r) else rest

-- Two rects of one word have the same range; else the first one ends before the second one starts.
abbrev pub Before : Rect → Rect → Type 0
Before r q =
    (r.byte_offset ≡ q.byte_offset) × (r.byte_len ≡ q.byte_len)
    ⊎ (r.byte_offset + r.byte_len ≤ q.byte_offset)

abbrev pub InOrder : List Rect → Type 0
InOrder [] = Unit
InOrder (r ∷ rs) = (r.byte_offset + r.byte_len < 2 ^ 32) × All (Before r) rs × InOrder rs

abbrev range_at : Option (ℕ × Rect) → Option (ℕ × ℕ)
range_at none = none
range_at (some (i, r)) = some (range_of r)

abbrev pub range_in : Option Rect → Option (ℕ × ℕ)
range_in none = none
range_in (some r) = some (range_of r)

word_at-behind :
    (r : Rect) (rs : List Rect) (offset : ℕ)
    → All (Before r) rs
    → offset < r.byte_offset
    → word_at rs offset ≡ none
unfolding word_at
word_at-behind r [] offset h lt = refl
word_at-behind r (q ∷ rs) offset (b, h) lt = ground (arith, b, word_at-behind r rs offset h lt)

scan-word_at :
    (i : ℕ) (rs : List Rect) (offset : ℕ)
    → InOrder rs
    → range_at (scan i rs offset) ≡ word_at rs offset
unfolding scan word_at
scan-word_at i [] offset h = refl
scan-word_at i (r ∷ rs) offset (small, before, h) =
    ground (arith, word_at-behind r rs offset before, scan-word_at (i + 1) rs offset h)

abbrev head_or {ℓ} : {A : Type ℓ} → A → List A → A
head_or x [] = x
head_or x (y ∷ ys) = y

All-drop {ℓ} :
    {A : Type ℓ} (P : A → Type 0) (n : ℕ) (xs : List A) (y : A) (ys : List A)
    → drop n xs ≡ y ∷ ys
    → All P xs
    → P y
All-drop P zero [] y ys e h = absurd (cc e)
All-drop P (suc n) [] y ys e h = absurd (cc e)
All-drop P zero (x ∷ xs) y ys e h = subst P (ap (head_or x) e) h.0
All-drop P (suc n) (x ∷ xs) y ys e h = All-drop P n xs y ys e h.1

-- The word at a byte of the first rect.
word_at-head :
    (r q : Rect) (qs : List Rect) (offset : ℕ)
    → Before r q
    → q.byte_offset ≤ offset
    → holds offset r ≡ true
    → some (range_of r) ≡ word_at (q ∷ qs) offset
unfolding word_at
word_at-head r q qs offset (inl (same, len)) le h =
    if-cases (λ w. some (range_of r) ≡ w) (holds offset q)
      (λ _. ap₂ (λ (a b : ℕ). some (a, b)) same len) (λ n. ground (arith, same, len, le, h, n))
word_at-head r q qs offset (inr before) le h = ground (arith, before, h)

word_at-drop :
    (c : ℕ) (rs : List Rect) (q : Rect) (qs : List Rect) (offset : ℕ)
    → InOrder rs
    → drop c rs ≡ q ∷ qs
    → q.byte_offset ≤ offset
    → word_at rs offset ≡ word_at (drop c rs) offset
unfolding word_at
word_at-drop zero rs q qs offset h e le = refl
word_at-drop (suc c) [] q qs offset h e le = refl
word_at-drop (suc c) (r ∷ rs) q qs offset (small, before, h) e le =
    if-cases (λ w. w ≡ word_at (drop c rs) offset) (holds offset r)
      (λ t.
        word_at-head r q qs offset (All-drop (Before r) c rs q qs e before) le t
        ∙ sym (ap (λ l. word_at l offset) e))
      (λ _. word_at-drop c rs q qs offset h e le)

drop-InOrder : (c : ℕ) (rs : List Rect) → InOrder rs → InOrder (drop c rs)
drop-InOrder zero rs h = h
drop-InOrder (suc c) [] h = h
drop-InOrder (suc c) (r ∷ rs) h = drop-InOrder c rs h.2

range-found : (core : Core) (at : Option (ℕ × Rect)) → range_in (found core at).0 ≡ range_at at
range-found core none = refl
range-found core (some (i, r)) = refl

start_cursor-word_at :
    (c : ℕ) (rs rest : List Rect) (offset : ℕ)
    → InOrder rs
    → drop c rs ≡ rest
    → word_at (drop (start_cursor c rest offset) rs) offset ≡ word_at rs offset
start_cursor-word_at c rs [] offset h e = refl
start_cursor-word_at c rs (q ∷ qs) offset h e =
    if-cases (λ k. word_at (drop k rs) offset ≡ word_at rs offset) (ltb offset q.byte_offset)
      (λ _. refl) (λ l. sym (word_at-drop c rs q qs offset h e (ground (arith, l))))

empty-word_at : (rs : List Rect) (offset : ℕ) → is_empty rs ≡ true → none ≡ word_at rs offset
unfolding word_at
empty-word_at [] offset h = refl
empty-word_at (r ∷ rs) offset h = cc

-- On rects in reading order that do not overlap but for those of one word and end at a byte in
-- front of 2 ^ 32, the word found from the cursor, wherever it stands, is the one that a search through all rects
-- finds first.
pub rect_containing-word_at :
    (offset : ℕ) (core : Core)
    → InOrder core.rects
    → range_in (rect_containing offset core).0 ≡ word_at core.rects offset
unfolding rect_containing
rect_containing-word_at offset core h =
    let cursor = start_cursor core.scan_cursor (drop core.scan_cursor core.rects) offset in
    let at = scan cursor (drop cursor core.rects) offset in
    if-cases (λ (f : Option Rect × Core). range_in f.0 ≡ word_at core.rects offset)
      (is_empty core.rects) (empty-word_at core.rects offset)
      (λ _.
        range-found (record core { scan_cursor = cursor }) at
        ∙ scan-word_at cursor (drop cursor core.rects) offset (drop-InOrder cursor core.rects h)
        ∙ start_cursor-word_at core.scan_cursor core.rects (drop core.scan_cursor core.rects) offset
            h refl)
