-- ===== src/ReadingLog/Store/History.antt =====
-- What the files of the log of src/ReadingLog.h hold together.
use crosspoint_simulator.Prelude.{
  ℕ, zero, suc, ◌+◌, ◌-◌, ◌≤◌, ◌≡◌, ◌∙◌, refl, ap, ap₂, sym, subst, true, false, List, [], ◌∷◌,
  ◌++◌, append_assoc, append-nil, map, flatten, Option, none, some, arith, leb, ◌==◌, length,
  length-append, Bytes, if-cases, if-both, ltb-ge, map-append,
}
use crosspoint_simulator.ReadingLog.Store.{
  Files, rotate_bytes, rotate, should_rotate, text_of, write_line,
}
use crosspoint_simulator.ReadingLog.Store.Rotated.{rotate_lem}
use crosspoint_simulator.ReadingLog.Store.Behind.{
  older, longer, Full, Behind, rotate-Behind, write_line-Behind,
}

-- A line with its end.
abbrev pub line_text : Bytes → Bytes
line_text line = line ++ 10 ∷ []

-- The lines of the first `n` files, the oldest first.
abbrev pub joined : ℕ → (ℕ → List Bytes) → List Bytes
joined zero lines = []
joined (suc n) lines = lines n ++ joined n lines

-- The text of the first `n` files, the oldest first.
abbrev pub history : ℕ → Files → Bytes
history zero files = []
history (suc n) files = text_of (files n) ++ history n files

abbrev pub Holds : Option Bytes → List Bytes → Type 0
Holds file lines = text_of file ≡ flatten (map line_text lines)

abbrev pub Small : Option Bytes → Type 0
Small file = length (text_of file) ≤ rotate_bytes

-- The files hold the last of the lines, those in front of them are lost, no file is larger than the limit,
-- and lines are lost from full files only.
abbrev pub Kept : ℕ → Files → List Bytes → Type 0
Kept room files written =
    (lost : List Bytes) × (lines : ℕ → List Bytes) × ((i : ℕ) → Holds (files i) (lines i))
    × (lost ++ joined 12 lines ≡ written)
    × ((i : ℕ) → Small (files i))
    × Behind room files lines lost

joined-older :
    (n : ℕ) (lines : ℕ → List Bytes) → n ≤ 11 → joined (suc n) (older lines) ≡ joined n lines
joined-older zero lines h = refl
joined-older (suc n) lines h = ap₂ ◌++◌ (ground arith) (joined-older n lines (omega arith))

rotated-Holds :
    (i : ℕ) (files : Files) (lines : ℕ → List Bytes)
    → ((k : ℕ) → Holds (files k) (lines k))
    → Holds (rotate files i) (older lines i)
unfolding flatten
rotated-Holds i files lines texts =
    ap text_of (rotate_lem i files)
    ∙ if-both Holds (i == 0) (λ _. refl)
        (λ _. if-both Holds (leb i 11) (λ _. texts (i - 1)) (λ _. texts i))

pub rotated-Small : (i : ℕ) (files : Files) → ((k : ℕ) → Small (files k)) → Small (rotate files i)
rotated-Small i files sizes = subst Small (sym (rotate_lem i files)) (
    if-cases Small (i == 0) (λ _. omega arith)
      (λ _. if-cases Small (leb i 11) (λ _. sizes (i - 1)) (λ _. sizes i)))

pub rotate-Kept :
    (room : ℕ) (files : Files) (written : List Bytes)
    → Full room (files 0)
    → Kept room files written
    → Kept room (rotate files) written
rotate-Kept room files written full (lost, lines, texts, same, sizes, behind) = (
  lost ++ lines 11,
  older lines,
  (λ i. rotated-Holds i files lines texts),
  append_assoc lost (lines 11) (joined 12 (older lines))
      ∙ ap (λ ls. lost ++ (lines 11 ++ ls)) (joined-older 11 lines (omega arith))
      ∙ same,
  (λ i. rotated-Small i files sizes),
  rotate-Behind room files lines lost full behind,
)

joined-longer :
    (n : ℕ) (line : Bytes) (lines : ℕ → List Bytes)
    → joined (suc n) (longer line lines) ≡ joined (suc n) lines ++ line ∷ []
joined-longer zero line lines =
    append-nil (lines 0 ++ line ∷ []) ∙ ap (λ ls. ls ++ line ∷ []) (sym (append-nil (lines 0)))
joined-longer (suc n) line lines =
    ap₂ ◌++◌ {x = longer line lines (suc n)} {y = lines (suc n)} (ground arith)
      (joined-longer n line lines)
    ∙ sym (append_assoc (lines (suc n)) (joined (suc n) lines) (line ∷ []))

flatten-append : (xs ys : List Bytes) → flatten (xs ++ ys) ≡ flatten xs ++ flatten ys
unfolding flatten
flatten-append [] ys = refl
flatten-append (x ∷ xs) ys =
    ap (λ t. x ++ t) (flatten-append xs ys) ∙ sym (append_assoc x (flatten xs) (flatten ys))

pub lines-append :
    (xs ys : List Bytes)
    → flatten (map line_text (xs ++ ys)) ≡ flatten (map line_text xs) ++ flatten (map line_text ys)
lines-append xs ys =
    ap flatten (map-append line_text xs ys) ∙ flatten-append (map line_text xs) (map line_text ys)

flatten-snoc :
    (lines : List Bytes) (line : Bytes)
    → flatten (map line_text lines) ++ line_text line ≡ flatten (map line_text (lines ++ line ∷ []))
unfolding flatten
flatten-snoc lines line =
    ap (λ t. flatten (map line_text lines) ++ t) (sym (append-nil (line_text line)))
    ∙ sym (lines-append lines (line ∷ []))

fitting :
    (file : Option Bytes) (incoming : ℕ)
    → should_rotate file incoming ≡ false
    → incoming ≤ rotate_bytes
    → length (text_of file) + incoming ≤ rotate_bytes
fitting none incoming fits small = omega (arith, small)
fitting (some text) incoming fits small = ltb-ge rotate_bytes (length text + incoming) fits

pub write_line-Kept :
    (room : ℕ) (line : Bytes) (files : Files) (written : List Bytes)
    → should_rotate (files 0) (length line + 1) ≡ false
    → length line + 1 ≤ rotate_bytes
    → Kept room files written
    → Kept room (write_line line true files) (written ++ line ∷ [])
write_line-Kept room line files written fits small (lost, lines, texts, same, sizes, behind) = (
  lost,
  longer line lines,
  (λ i.
      if-both Holds (i == 0)
        (λ _. ap (λ t. t ++ line_text line) (texts 0) ∙ flatten-snoc (lines 0) line)
        (λ _. texts i)),
  ap (λ ls. lost ++ ls) (joined-longer 11 line lines)
      ∙ sym (append_assoc lost (joined 12 lines) (line ∷ []))
      ∙ ap (λ w. w ++ line ∷ []) same,
  (λ i.
      if-cases Small (i == 0)
        (λ _. omega (
          arith,
          fitting (files 0) (length line + 1) fits small,
          length-append (text_of (files 0)) (line_text line),
          length-append line (10 ∷ []),
        ))
        (λ _. sizes i)),
  write_line-Behind room line files lines lost behind,
)
