-- ===== src/Prelude/Text.antt =====
-- Byte strings: tests, search, ASCII case and white space.
use Prim.Native.Nat.{ℕ, suc, ◌+◌}
use Prim.Native.Char.{code}
use Prim.Native.String.{String}
use mathlib.Core.Path.{◌≡◌, refl}
use mathlib.Core.Logic.{◌⊎◌, inl, inr}
use mathlib.Core.Bool.{Bool, true, false, ◌&&◌, ◌||◌}
use mathlib.Core.List.{[], ◌∷◌, reverse}
use mathlib.Core.Option.{Option, none, some}
use native.Mathlib.Omega.{arith}
use crosspoint_simulator.Prelude.Tests.{Bool-cases, Option-cases, leb, ◌==◌, if◌then◌else◌}
use crosspoint_simulator.Prelude.Fallible.{Bytes}

-- The bytes of an ASCII text.
abbrev pub codes : String → Bytes
codes String.[] = []
codes (String.◌∷◌ c s) = code c ∷ codes s

unfoldable pub bytes_eq : Bytes → Bytes → Bool
bytes_eq [] [] = true
bytes_eq (x ∷ xs) (y ∷ ys) = x == y && bytes_eq xs ys
bytes_eq _ _ = false

pub bytes_eq→eq : (xs ys : Bytes) → bytes_eq xs ys ≡ true → xs ≡ ys
unfolding bytes_eq
bytes_eq→eq [] [] h = refl
bytes_eq→eq (x ∷ xs) (y ∷ ys) h = ground (arith, bytes_eq→eq xs ys)
bytes_eq→eq [] (y ∷ ys) h = cc
bytes_eq→eq (x ∷ xs) [] h = cc

pub bytes_eq_refl : (xs : Bytes) → bytes_eq xs xs ≡ true
unfolding bytes_eq
bytes_eq_refl [] = refl
bytes_eq_refl (x ∷ xs) = ground (arith, bytes_eq_refl xs)

unfoldable pub starts_with : Bytes → Bytes → Bool
starts_with [] xs = true
starts_with (p ∷ ps) [] = false
starts_with (p ∷ ps) (x ∷ xs) = p == x && starts_with ps xs

-- `std::string::find`; `none` is `npos`.
unfoldable pub find : Bytes → Bytes → Option ℕ
unfolding starts_with
find needle [] = if starts_with needle [] then some 0 else none
find needle (x ∷ xs) =
    let later : Option ℕ = elim (find needle xs) [ none ↦ none | some i ↦ some (suc i) ] in
    if starts_with needle (x ∷ xs) then some 0 else later

-- Where the first occurrence can be: here, or behind the first byte.
pub find-cases :
    (needle : Bytes) (x : ℕ) (xs : Bytes) (i : ℕ)
    → find needle (x ∷ xs) ≡ some i
    → ((starts_with needle (x ∷ xs) ≡ true) × (i ≡ 0))
      ⊎ ((j : ℕ) × (i ≡ suc j) × (find needle xs ≡ some j) × (starts_with needle (x ∷ xs) ≡ false))
unfolding find
find-cases needle x xs i h = elim (Bool-cases (starts_with needle (x ∷ xs))) [
  | inl here ↦ inl (here, ground arith)
  | inr past ↦ elim (Option-cases (find needle xs)) [
    | inl e ↦ ground arith
    | inr (j, e) ↦ inr (j, ground arith, e, past)
  ]
]

pub find-none-cons :
    (needle : Bytes) (x : ℕ) (xs : Bytes)
    → find needle (x ∷ xs) ≡ none
    → (starts_with needle (x ∷ xs) ≡ false) × (find needle xs ≡ none)
unfolding find
find-none-cons needle x xs h = (ground arith, ground arith)

-- `std::tolower` in the C locale.
unfoldable pub lower : ℕ → ℕ
lower c = if leb b'A' c && leb c b'Z' then c + 32 else c

-- `std::isspace` in the C locale.
unfoldable pub is_space : ℕ → Bool
is_space c = c == 32 || (leb 9 c && leb c 13)

unfoldable pub trim_left : Bytes → Bytes
unfolding is_space
trim_left [] = []
trim_left (c ∷ cs) = if is_space c then trim_left cs else c ∷ cs

unfoldable pub trim : Bytes → Bytes
unfolding trim_left
trim s = reverse (trim_left (reverse (trim_left s)))
