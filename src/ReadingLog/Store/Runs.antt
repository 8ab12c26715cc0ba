-- ===== src/ReadingLog/Store/Runs.antt =====
-- What is left of the lines that were logged by the calls of `append` of src/ReadingLog.h.
use crosspoint_simulator.Prelude.{
  ℕ, zero, suc, ◌+◌, ◌≤◌, ◌≡◌, ◌∙◌, refl, ap, ap₂, sym, subst, Bool, true, false, List, [], ◌∷◌,
  ◌++◌, append_assoc, append-nil, map, flatten, none, arith, if◌then◌else◌, length, Bytes, if-cases,
  All, ◌⊎◌, inl, Option, inr, some,
}
use crosspoint_simulator.ReadingLog.Store.{
  Files, rotate_bytes, rotate, should_rotate, text_of, append, run,
}
use crosspoint_simulator.ReadingLog.Store.Rotated.{rotate_lem}
use crosspoint_simulator.ReadingLog.Store.Behind.{Full, FullUpTo}
use crosspoint_simulator.ReadingLog.Store.History.{
  line_text, joined, history, Holds, Kept, lines-append, rotate-Kept, write_line-Kept,
}

-- The lines that are written, one for each call whose `fopen` succeeds.
abbrev pub logged : List (Bytes × Bool) → List Bytes
logged [] = []
logged ((line, true) ∷ calls) = line ∷ logged calls
logged ((line, false) ∷ calls) = logged calls

-- The line and its end fit into `room` bytes.
abbrev pub FitsInto : ℕ → Bytes × Bool → Type 0
FitsInto room (line, opens) = length line + 1 ≤ room

-- Files that may be written to, with the lines they keep.
abbrev Ready : ℕ → ℕ → List Bytes → Files → Type 0
Ready room incoming written files =
    (should_rotate (files 0) incoming ≡ false) × Kept room files written

rotated-Full :
    (room incoming : ℕ) (file : Option Bytes)
    → incoming ≤ room
    → should_rotate file incoming ≡ true
    → Full room file
rotated-Full room incoming none h rotated = ground (arith, rotated)
rotated-Full room incoming (some text) h rotated = ground (arith, rotated)

ready :
    (room incoming : ℕ) (files : Files) (written : List Bytes)
    → incoming ≤ room
    → Kept room files written
    → Ready room incoming written (if should_rotate (files 0) incoming then rotate files else files)
ready room incoming files written h kept =
    if-cases (Ready room incoming written) (should_rotate (files 0) incoming)
      (λ rotated. (
        ap (λ file. should_rotate file incoming) (rotate_lem 0 files),
        rotate-Kept room files written (rotated-Full room incoming (files 0) h rotated) kept,
      ))
      (λ fits. (fits, kept))

append-written :
    (room : ℕ) (line : Bytes) (files : Files) (written : List Bytes)
    → room ≤ rotate_bytes
    → length line + 1 ≤ room
    → Kept room files written
    → Kept room (append line true files) (written ++ line ∷ [])
unfolding append
append-written room line files written small h kept =
    let next = if should_rotate (files 0) (length line + 1) then rotate files else files in
    let (fits, still) = ready room (length line + 1) files written h kept in
    write_line-Kept room line next written fits (omega arith) still

append-unopened :
    (room : ℕ) (line : Bytes) (files : Files) (written : List Bytes)
    → length line + 1 ≤ room
    → Kept room files written
    → Kept room (append line false files) written
unfolding append
append-unopened room line files written h kept =
    (ready room (length line + 1) files written h kept).1

run-Kept :
    (room : ℕ) (calls : List (Bytes × Bool)) (files : Files) (written : List Bytes)
    → room ≤ rotate_bytes
    → All (FitsInto room) calls
    → Kept room files written
    → Kept room (run calls files) (written ++ logged calls)
unfolding run
run-Kept room [] files written small fits kept =
    subst (Kept room files) (sym (append-nil written)) kept
run-Kept room ((line, true) ∷ calls) files written small (h, fits) kept =
    subst (Kept room (run calls (append line true files)))
      (append_assoc written (line ∷ []) (logged calls))
      (run-Kept room calls (append line true files) (written ++ line ∷ []) small fits
        (append-written room line files written small h kept))
run-Kept room ((line, false) ∷ calls) files written small (h, fits) kept =
    run-Kept room calls (append line false files) written small fits
      (append-unopened room line files written h kept)

history-joined :
    (n : ℕ) (files : Files) (lines : ℕ → List Bytes)
    → ((i : ℕ) → Holds (files i) (lines i))
    → history n files ≡ flatten (map line_text (joined n lines))
unfolding flatten
history-joined zero files lines texts = refl
history-joined (suc n) files lines texts =
    ap₂ ◌++◌ (texts n) (history-joined n files lines texts)
    ∙ sym (lines-append (lines n) (joined n lines))

abbrev pub no_files : Files
no_files i = none

no_files-Kept : (room : ℕ) → Kept room no_files []
unfolding flatten
no_files-Kept room = (
  [],
  (λ i. []),
  (λ i. refl),
  refl,
  (λ i. omega arith),
  inl (0, omega arith, refl, (λ i h. refl), (λ i low high. omega arith)),
)

-- However many lines are logged, each with its end of at most `room` bytes and these at most 4 MB, and
-- whichever calls of `fopen` fail: the files of the log hold, from the oldest to the newest, the last of
-- the lines that were written, each whole and in the order in which they were written; no file is larger
-- than 4 MB; and either no line is lost, or the eleven files behind the base file each are so large that
-- with `room` more bytes they are larger than 4 MB.
pub run-history :
    (room : ℕ) (calls : List (Bytes × Bool))
    → room ≤ rotate_bytes
    → All (FitsInto room) calls
    → (lost : List Bytes) × (kept : List Bytes) × (lost ++ kept ≡ logged calls)
      × (history 12 (run calls no_files) ≡ flatten (map line_text kept))
      × ((i : ℕ) → length (text_of (run calls no_files i)) ≤ rotate_bytes)
      × (lost ≡ [] ⊎ FullUpTo room (run calls no_files) 11)
run-history room calls small fits =
    let (lost, lines, texts, same, sizes, behind) =
      run-Kept room calls no_files [] small fits (no_files-Kept room) in
    (
      lost,
      joined 12 lines,
      same,
      history-joined 12 (run calls no_files) lines texts,
      sizes,
      elim behind [ inl (n, _, none_lost, _, _) ↦ inl none_lost | inr full ↦ inr full ],
    )
