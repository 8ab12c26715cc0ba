-- ===== src/FileTransfer/Path/Squeezed.antt =====
-- The loop of `normalizePath` that takes doubled slashes away does the work of one pass.
use crosspoint_simulator.Prelude.{
  ℕ, zero, suc, ◌≤◌, ◌≡◌, ◌∙◌, refl, sym, Bool, true, false, [], ◌∷◌, none, some, arith, ◌==◌,
  if◌then◌else◌, length, Bytes, find, starts_with, Option-cases, ap₂, inl, inr, ap, find-cases,
}
use crosspoint_simulator.FileTransfer.Path.{slash, replace_pair, double_slash, collapse}

-- The text without the slashes that come right behind a slash; the flag says that one comes right
-- in front of it.
unfoldable pub squeeze : Bool → Bytes → Bytes
squeeze after_slash [] = []
squeeze after_slash (c ∷ cs) =
    let slashed = squeeze true cs in
    if c == slash then if after_slash then slashed else c ∷ slashed else c ∷ squeeze false cs

squeeze-cons :
    (b : Bool) (c : ℕ) (p q : Bytes)
    → ((a : Bool) → squeeze a p ≡ squeeze a q)
    → squeeze b (c ∷ p) ≡ squeeze b (c ∷ q)
unfolding squeeze
squeeze-cons b c p q same =
    ap₂
      (λ (slashed plain : Bytes).
        if c == slash then if b then slashed else c ∷ slashed else c ∷ plain)
      (same true) (same false)

squeeze-pair : (b : Bool) (cs : Bytes) → squeeze b (slash ∷ cs) ≡ squeeze b (slash ∷ slash ∷ cs)
unfolding squeeze
squeeze-pair true cs = refl
squeeze-pair false cs = refl

starts_with-slashes :
    (c d : ℕ) (cs : Bytes)
    → starts_with double_slash (c ∷ d ∷ cs) ≡ true
    → (c ≡ slash) × (d ≡ slash)
unfolding starts_with
starts_with-slashes c d cs h = ground arith

find-empty : find double_slash [] ≡ none
unfolding find starts_with
find-empty = refl

find-short : (c : ℕ) → find double_slash (c ∷ []) ≡ none
unfolding find starts_with
find-short c = ground arith

squeeze-replace_pair :
    (path : Bytes) (i : ℕ)
    → find double_slash path ≡ some i
    → ((b : Bool) → squeeze b (replace_pair i path) ≡ squeeze b path)
      × (length path ≡ suc (length (replace_pair i path)))
unfolding replace_pair
squeeze-replace_pair [] i h = ground (arith, find-empty)
squeeze-replace_pair (c ∷ []) i h = ground (arith, find-short c)
squeeze-replace_pair (c ∷ d ∷ cs) i h = elim (find-cases double_slash c (d ∷ cs) i h) [
  | inl (here, ei) ↦
      let both = starts_with-slashes c d cs here in
      rw (both.0, both.1, ei) ((λ b. squeeze-pair b cs), refl)
  | inr (j, ei, e, _) ↦
      let ih = squeeze-replace_pair (d ∷ cs) j e in
      rw ei ((λ b. squeeze-cons b c (replace_pair j (d ∷ cs)) (d ∷ cs) ih.0), ap suc ih.1)
]

squeeze_of_none : (path : Bytes) → find double_slash path ≡ none → squeeze false path ≡ path
unfolding squeeze find starts_with
squeeze_of_none [] h = refl
squeeze_of_none (c ∷ []) h = ground arith
squeeze_of_none (c ∷ d ∷ cs) h = ground (arith, squeeze_of_none (d ∷ cs))

-- With as much fuel as the path has bytes, the loop ends without a doubled slash.
pub collapse-squeeze :
    (fuel : ℕ) (path : Bytes) → length path ≤ fuel → collapse fuel path ≡ squeeze false path
unfolding collapse squeeze
collapse-squeeze zero [] h = refl
collapse-squeeze zero (c ∷ cs) h = ground arith
collapse-squeeze (suc fuel) path h = elim (Option-cases (find double_slash path)) [
  | inl e ↦ rw (e, collapse) (sym (squeeze_of_none path e))
  | inr (i, e) ↦
      let shorter = squeeze-replace_pair path i e in
      rw (e, collapse)
        (collapse-squeeze fuel (replace_pair i path) (omega (arith, shorter.1)) ∙ shorter.0 false)
]
