-- ===== src/ReadingLog/Store/Behind.antt =====
-- The sizes of the files behind the base file of the log of src/ReadingLog.h.
use crosspoint_simulator.Prelude.{
  ℕ, zero, suc, ◌+◌, ◌-◌, ◌≤◌, ◌<◌, ◌≡◌, ◌∙◌, refl, ap₂, sym, subst, true, List, [], ◌∷◌, ◌++◌,
  Option, arith, ltb, leb, ◌==◌, if◌then◌else◌, length, Bytes, if-cases, inl, inr, ◌⊎◌, Bool-cases,
}
use crosspoint_simulator.ReadingLog.Store.{Files, rotate_bytes, rotate, text_of, write_line}
use crosspoint_simulator.ReadingLog.Store.Rotated.{rotate_lem}

-- The lines of the files after a rotation.
abbrev pub older : (ℕ → List Bytes) → ℕ → List Bytes
older lines k = if k == 0 then [] else if leb k 11 then lines (k - 1) else lines k

-- The lines of the files with one more line in the base file.
abbrev pub longer : Bytes → (ℕ → List Bytes) → ℕ → List Bytes
longer line lines k = if k == 0 then lines 0 ++ line ∷ [] else lines k

-- A text of the size `room` does not fit behind the text of the file.
abbrev pub Full : ℕ → Option Bytes → Type 0
Full room file = rotate_bytes < length (text_of file) + room

-- The files with the suffixes `.1` to `.n` are full.
abbrev pub FullUpTo : ℕ → Files → ℕ → Type 0
FullUpTo room files n = (i : ℕ) → 1 ≤ i → i ≤ n → Full room (files i)

-- No line is lost and the files behind the first `n` are empty, or all of them are full.
abbrev pub Behind : ℕ → Files → (ℕ → List Bytes) → List Bytes → Type 0
Behind room files lines lost =
    ((n : ℕ) × (n ≤ 10) × (lost ≡ []) × ((i : ℕ) → n < i → lines i ≡ []) × FullUpTo room files n)
    ⊎ FullUpTo room files 11

FullUpTo-all :
    (room : ℕ) (files : Files) (n k : ℕ)
    → Full room (files 0)
    → FullUpTo room files n
    → k ≤ n
    → Full room (files k)
FullUpTo-all room files n zero base full h = base
FullUpTo-all room files n (suc k) base full h = full (suc k) (omega arith) h

rotate-FullUpTo :
    (room : ℕ) (files : Files) (n : ℕ)
    → n ≤ 10
    → Full room (files 0)
    → FullUpTo room files n
    → FullUpTo room (rotate files) (n + 1)
rotate-FullUpTo room files n small base full i low high =
    subst (Full room) {x = files (i - 1)} (sym (rotate_lem i files ∙ ground arith))
      (FullUpTo-all room files n (i - 1) base full (omega arith))

older-empty :
    (n i : ℕ) (lines : ℕ → List Bytes)
    → ((k : ℕ) → n < k → lines k ≡ [])
    → n + 1 < i
    → older lines i ≡ []
older-empty n i lines empty h =
    if-cases (λ ls. ls ≡ []) (i == 0) (λ _. refl)
      (λ _.
        if-cases (λ ls. ls ≡ []) (leb i 11) (λ _. empty (i - 1) (omega arith))
          (λ _. empty i (omega arith)))

pub rotate-Behind :
    (room : ℕ) (files : Files) (lines : ℕ → List Bytes) (lost : List Bytes)
    → Full room (files 0)
    → Behind room files lines lost
    → Behind room (rotate files) (older lines) (lost ++ lines 11)
rotate-Behind room files lines lost base (inr full) = inr (λ i low high.
    rotate-FullUpTo room files 10 (omega arith) base (λ k l h. full k l (omega arith)) i low
      (omega arith))
rotate-Behind room files lines lost base (inl (n, small, none_lost, empty, full)) =
    let more = rotate-FullUpTo room files n small base full in
    elim (Bool-cases (ltb n 10)) [
      | inl h ↦ inl (
        n + 1,
        ground arith,
        ap₂ ◌++◌ none_lost (empty 11 (omega arith)),
        (λ i. older-empty n i lines empty),
        more,
      )
      | inr h ↦ inr (λ i low high. more i low (ground arith))
    ]

write_line-FullUpTo :
    (room n : ℕ) (line : Bytes) (files : Files)
    → FullUpTo room files n
    → FullUpTo room (write_line line true files) n
write_line-FullUpTo room n line files full i low high =
    subst (Full room) {x = files i} {y = write_line line true files i} (ground arith)
      (full i low high)

pub write_line-Behind :
    (room : ℕ) (line : Bytes) (files : Files) (lines : ℕ → List Bytes) (lost : List Bytes)
    → Behind room files lines lost
    → Behind room (write_line line true files) (longer line lines) lost
write_line-Behind room line files lines lost (inr full) =
    inr (write_line-FullUpTo room 11 line files full)
write_line-Behind room line files lines lost (inl (n, small, none_lost, empty, full)) = inl (
  n,
  small,
  none_lost,
  (λ i h. ground (arith, empty i h)),
  write_line-FullUpTo room n line files full,
)
