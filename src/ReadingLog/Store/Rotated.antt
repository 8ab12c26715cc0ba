-- ===== src/ReadingLog/Store/Rotated.antt =====
-- The files of the log of src/ReadingLog.h after a rotation.
use crosspoint_simulator.Prelude.{
  ℕ, zero, suc, ◌+◌, ◌-◌, ◌≡◌, ◌∙◌, refl, ap, ap₂, false, ◌&&◌, Option, none, arith, leb, ◌==◌,
  if◌then◌else◌, Bytes, Option-cases, inl, inr,
}
use crosspoint_simulator.ReadingLog.Store.{Files, remove, moved, rename, shift, rotate}

-- To a place without a file.
rename_lem :
    (from to k : ℕ) (files : Files)
    → files to ≡ none
    → (from == to) ≡ false
    → rename from to files k ≡ (if k == to then files from else if k == from then none else files k)
unfolding rename
rename_lem from to k files h ne = elim (Option-cases (files from)) [
  | inl e ↦ rw (e, moved) (ground (arith, e, h))
  | inr (text, e) ↦ rw (e, moved) (ground (arith, e))
]

remove_lem : (i k : ℕ) (files : Files) → remove i files k ≡ (if k == i then none else files k)
unfolding remove
remove_lem i k files = refl

remove-same : (i : ℕ) (files : Files) → remove i files i ≡ none
unfolding remove
remove-same i files = ground arith

abbrev shifted : ℕ → Files → Files
shifted n files k =
    if leb 2 k && leb k (n + 1) then files (k - 1) else if k == 1 then none else files k

shift_lem : (n k : ℕ) (files : Files) → files (n + 1) ≡ none → shift n files k ≡ shifted n files k
unfolding shift
shift_lem zero k files h = ground (arith, h)
shift_lem (suc n) k files h =
    let free : files (suc (suc n)) ≡ none = ap files (omega arith) ∙ h in
    let next = rename (suc n) (suc (suc n)) files in
    let at = λ (j : ℕ). rename_lem (suc n) (suc (suc n)) j files free (ground arith) in
    shift_lem n k next (ap next (omega arith) ∙ at (suc n) ∙ ground arith)
    ∙ ground (arith, at k, at (k - 1))

shift-remove :
    (k : ℕ) (files : Files)
    → shift 10 (remove 11 files) k
      ≡ (if leb 2 k && leb k 11 then files (k - 1) else if k == 1 then none else files k)
shift-remove k files =
    shift_lem 10 k (remove 11 files) (remove-same 11 files)
    ∙ ground (arith, remove_lem 11 k files, remove_lem 11 (k - 1) files)

-- The base file is gone, the others each have the next suffix, and the oldest is gone.
pub rotate_lem :
    (k : ℕ) (files : Files)
    → rotate files k ≡ (if k == 0 then none else if leb k 11 then files (k - 1) else files k)
unfolding rotate
rotate_lem k files =
    rename_lem 0 1 k (shift 10 (remove 11 files)) (shift-remove 1 files) refl
    ∙ ap₂ (λ (a b : Option Bytes). if k == 1 then a else if k == 0 then none else b)
        (shift-remove 0 files) (shift-remove k files)
    ∙ ground arith
