-- ===== src/Prelude/Bits.antt =====
-- `bit_xor` at variables: masking twice by one number gives the first back.
use Prim.Native.Nat.{
  ℕ, zero, suc, ◌+◌, ◌*◌, ◌/◌, ◌%◌, ◌-◌, ◌≤◌, ◌<◌, bit_xor, digits, differ, bit_xor-bitwise,
}
use mathlib.Core.Path.{◌≡◌, refl, ap, ◌∙◌}
use native.Mathlib.Omega.{arith}

-- `bit_xor` is a recursion over `count` binary digits.
abbrev differing : ℕ → ℕ → ℕ → ℕ
differing count a b = digits (λ rest. rest) differ count a b

differing-suc : (count a b : ℕ) → a ≤ count → differing (suc count) a b ≡ differing count a b
differing-suc zero zero b short = refl
differing-suc zero (suc a) b short = absurd (omega arith)
differing-suc (suc count) zero b short = refl
differing-suc (suc count) (suc a) b short =
    ap (λ (d : ℕ). d * 2 + differ (suc a % 2) (b % 2))
      (differing-suc count (suc a / 2) (b / 2) (omega arith))

-- A greater count changes nothing.
differing_more :
    (extra count total a b : ℕ)
    → a ≤ count
    → total ≡ count + extra
    → differing total a b ≡ differing count a b
differing_more zero count total a b short e = ap (λ (t : ℕ). differing t a b) (omega arith)
differing_more (suc extra) count zero a b short e = absurd (omega arith)
differing_more (suc extra) count (suc total) a b short e =
    differing-suc total a b (omega arith) ∙ differing_more extra count total a b short (omega arith)

pub zero-bit_xor : (b : ℕ) → bit_xor 0 b ≡ b
zero-bit_xor b = bit_xor-bitwise 0 b

-- The sum of two digits without its carry.
differ_lem : (a b : ℕ) → a < 2 → b < 2 → differ a b ≡ (a + b) % 2
differ_lem zero b p q = omega arith
differ_lem (suc zero) zero p q = refl
differ_lem (suc zero) (suc zero) p q = refl
differ_lem (suc zero) (suc (suc b)) p q = absurd (omega arith)
differ_lem (suc (suc a)) b p q = absurd (omega arith)

-- The lowest digit of the result, and the others.
bit_xor_low : (a b : ℕ) → bit_xor a b ≡ (a % 2 + b % 2) % 2 + 2 * bit_xor (a / 2) (b / 2)
bit_xor_low zero b = omega (arith, zero-bit_xor (b / 2), zero-bit_xor b)
bit_xor_low (suc a) b =
    let half = suc a / 2 in
    let counted = differing_more (a - half) half a half (b / 2) (omega arith) (omega arith) in
    let digit = differ_lem (suc a % 2) (b % 2) (omega arith) (omega arith) in
    omega (arith, counted, digit, bit_xor-bitwise half (b / 2), bit_xor-bitwise (suc a) b)

xor_cancel_fuel : (n a m : ℕ) → a ≤ n → m ≤ n → bit_xor (bit_xor a m) m ≡ a
xor_cancel_fuel zero zero zero p q = refl
xor_cancel_fuel zero zero (suc m) p q = absurd (omega arith)
xor_cancel_fuel zero (suc a) m p q = absurd (omega arith)
xor_cancel_fuel (suc n) a m p q = omega (
  arith,
  bit_xor_low a m,
  bit_xor_low (bit_xor a m) m,
  ap (λ (x : ℕ). bit_xor x (m / 2)) {x = bit_xor a m / 2} {y = bit_xor (a / 2) (m / 2)}
      (omega (arith, bit_xor_low a m)),
  xor_cancel_fuel n (a / 2) (m / 2) (omega arith) (omega arith),
)

pub bit_xor-bit_xor : (a m : ℕ) → bit_xor (bit_xor a m) m ≡ a
bit_xor-bit_xor a m = xor_cancel_fuel (a + m) a m (omega arith) (omega arith)
