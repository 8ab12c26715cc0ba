-- ===== src/Prelude/Find.antt =====
-- Where the first occurrence of a byte string is in a longer text.
use Prim.Native.Nat.{ℕ, suc, ◌+◌, ◌≤◌}
use mathlib.Core.Path.{◌≡◌, refl, ap, sym, ◌∙◌}
use mathlib.Core.Bool.{true, false, ◌&&◌}
use mathlib.Core.Logic.{inl, inr}
use mathlib.Core.List.{[], ◌∷◌, ◌++◌, append_assoc}
use mathlib.Core.Option.{none, some}
use native.Mathlib.Omega.{arith}
use crosspoint_simulator.Prelude.Tests.{◌==◌}
use crosspoint_simulator.Prelude.Lists.{drop, length, length-append}
use crosspoint_simulator.Prelude.Fallible.{Bytes}
use crosspoint_simulator.Prelude.Text.{starts_with, find, find-cases, find-none-cons}

pub drop-add : (n : ℕ) (xs ys : Bytes) → drop (length xs + n) (xs ++ ys) ≡ drop n ys
drop-add n [] ys = ap (λ (k : ℕ). drop k ys) (omega arith)
drop-add n (x ∷ xs) ys =
    ap (λ k. drop k (x ∷ xs ++ ys)) {x = suc (length xs) + n} {y = suc (length xs + n)}
      (omega arith)
    ∙ drop-add n xs ys

pub starts_with-append :
    (needle xs ys : Bytes)
    → length needle ≤ length xs
    → starts_with needle (xs ++ ys) ≡ starts_with needle xs
unfolding starts_with
starts_with-append [] xs ys h = refl
starts_with-append (n ∷ needle) [] ys h = absurd (omega arith)
starts_with-append (n ∷ needle) (x ∷ xs) ys h =
    ap (λ b. n == x && b) (starts_with-append needle xs ys (omega arith))

pub starts_with-prefix : (needle xs : Bytes) → starts_with needle (needle ++ xs) ≡ true
unfolding starts_with
starts_with-prefix [] xs = refl
starts_with-prefix (n ∷ needle) xs = ground (arith, starts_with-prefix needle xs)

starts_with-length : (needle xs : Bytes) → starts_with needle xs ≡ true → length needle ≤ length xs
unfolding starts_with
starts_with-length [] xs h = omega arith
starts_with-length (n ∷ needle) [] h = cc
starts_with-length (n ∷ needle) (x ∷ xs) h = ground (arith, starts_with-length needle xs)

-- What is found in a text ends in it.
pub find-length :
    (needle xs : Bytes) (i : ℕ) → find needle xs ≡ some i → i + length needle ≤ length xs
unfolding find starts_with
find-length [] [] i h = ground arith
find-length (n ∷ needle) [] i h = ground arith
find-length needle (x ∷ xs) i h = elim (find-cases needle x xs i h) [
  | inl (here, e) ↦ omega (arith, e, starts_with-length needle (x ∷ xs) here)
  | inr (j, e, later, past) ↦ omega (arith, e, find-length needle xs j later)
]

here-first :
    (needle : Bytes) (x : ℕ) (xs : Bytes)
    → starts_with needle (x ∷ xs) ≡ true
    → find needle (x ∷ xs) ≡ some 0
unfolding find
here-first needle x xs h = rw h refl

pub find-prefix : (c : ℕ) (cs ys : Bytes) → find (c ∷ cs) ((c ∷ cs) ++ ys) ≡ some 0
find-prefix c cs ys = here-first (c ∷ cs) c (cs ++ ys) (starts_with-prefix (c ∷ cs) ys)

past-first :
    (needle : Bytes) (x : ℕ) (xs : Bytes) (i : ℕ)
    → starts_with needle (x ∷ xs) ≡ false
    → find needle xs ≡ some i
    → find needle (x ∷ xs) ≡ some (suc i)
unfolding find
past-first needle x xs i h k = rw (h, k) refl

find-nothing : (xs : Bytes) → find [] xs ≡ some 0
unfolding find starts_with
find-nothing [] = refl
find-nothing (x ∷ xs) = refl

starts_with-longer :
    (needle xs ys : Bytes) → starts_with needle xs ≡ true → starts_with needle (xs ++ ys) ≡ true
starts_with-longer needle xs ys h =
    starts_with-append needle xs ys (starts_with-length needle xs h) ∙ h

-- What is found in a text is found there whatever follows the text.
pub find-append :
    (needle xs ys : Bytes) (i : ℕ) → find needle xs ≡ some i → find needle (xs ++ ys) ≡ some i
find-append [] [] ys i h = find-nothing ys ∙ sym (find-nothing []) ∙ h
find-append (n ∷ needle) [] ys i h = absurd (omega (arith, find-length (n ∷ needle) [] i h))
find-append needle (x ∷ xs) ys i h = elim (find-cases needle x xs i h) [
  | inl (here, e) ↦
      here-first needle x (xs ++ ys) (starts_with-longer needle (x ∷ xs) ys here) ∙ ap some (sym e)
  | inr (j, e, later, past) ↦
      past-first needle x (xs ++ ys) j
        (starts_with-append needle (x ∷ xs) ys (omega (arith, find-length needle xs j later))
          ∙ past)
        (find-append needle xs ys j later)
      ∙ ap some (sym e)
]

-- And the other way round, where it ends in the text.
pub find-within :
    (needle xs ys : Bytes) (i : ℕ)
    → find needle (xs ++ ys) ≡ some i
    → i + length needle ≤ length xs
    → find needle xs ≡ some i
find-within [] [] ys i h k = find-nothing [] ∙ sym (find-nothing ys) ∙ h
find-within (n ∷ needle) [] ys i h k = absurd (omega arith)
find-within needle (x ∷ xs) ys i h k = elim (find-cases needle x (xs ++ ys) i h) [
  | inl (here, e) ↦
      here-first needle x xs (sym (starts_with-append needle (x ∷ xs) ys (omega (arith, e))) ∙ here)
      ∙ ap some (sym e)
  | inr (j, e, later, past) ↦
      past-first needle x xs j
        (sym (starts_with-append needle (x ∷ xs) ys (omega (arith, e))) ∙ past)
        (find-within needle xs ys j later (omega (arith, e)))
      ∙ ap some (sym e)
]

-- The needle without its last byte.
abbrev pub but_last : Bytes → Bytes
but_last [] = []
but_last (c ∷ []) = []
but_last (c ∷ d ∷ cs) = c ∷ but_last (d ∷ cs)

-- The needle neither begins in the text nor, where the needle follows it, across its end.
abbrev pub Free : Bytes → Bytes → Type 0
Free needle xs = find needle (xs ++ but_last needle) ≡ none

length-but_last : (c : ℕ) (cs : Bytes) → length (but_last (c ∷ cs)) ≡ length cs
length-but_last c [] = refl
length-but_last c (d ∷ cs) = ap suc (length-but_last d cs)

but_last-prefix : (c : ℕ) (cs : Bytes) → (d : ℕ) × (c ∷ cs ≡ but_last (c ∷ cs) ++ d ∷ [])
but_last-prefix c [] = (c, refl)
but_last-prefix c (d ∷ cs) = let (e, h) = but_last-prefix d cs in (e, ap (◌∷◌ c) h)

-- Behind a text that is free of it, the first occurrence of the needle is where the text ends.
pub find-Free :
    (c : ℕ) (cs xs ys : Bytes)
    → Free (c ∷ cs) xs
    → find (c ∷ cs) (xs ++ ((c ∷ cs) ++ ys)) ≡ some (length xs)
find-Free c cs [] ys h = here-first (c ∷ cs) c (cs ++ ys) (starts_with-prefix (c ∷ cs) ys)
find-Free c cs (x ∷ xs) ys h =
    let (d, e) = but_last-prefix c cs in
    let needle = c ∷ cs in
    let most = but_last needle in
    let (past, later) = find-none-cons needle x (xs ++ most) h in
    let whole : x ∷ xs ++ (needle ++ ys) ≡ x ∷ xs ++ most ++ d ∷ ys =
      ap (λ n. x ∷ xs ++ (n ++ ys)) e
      ∙ ap (λ u. x ∷ xs ++ u) (append_assoc most (d ∷ []) ys)
      ∙ sym (append_assoc (x ∷ xs) most (d ∷ ys)) in
    past-first needle x (xs ++ (needle ++ ys)) (length xs)
      (ap (starts_with needle) whole
        ∙ starts_with-append needle (x ∷ xs ++ most) (d ∷ ys)
            (omega (arith, length-append xs most, length-but_last c cs))
        ∙ past)
      (find-Free c cs xs ys later)
