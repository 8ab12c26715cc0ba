-- ===== src/ReadingLog/Arm.antt =====
-- src/ReadingArm.h: which arm of an experiment a chapter of a book is read under.
pub mod Balanced
mod Tests
use crosspoint_simulator.Prelude.{
  ℕ, zero, suc, ◌+◌, ◌-◌, ◌*◌, ◌/◌, ◌%◌, ◌^◌, min, bit_xor, Bool, true, List, [], ◌∷◌, ltb, leb,
  if◌then◌else◌, get_or, ℤ, pos, negsuc,
}

-- One round of the hash: `v >> 8 * i` is its quotient.
abbrev pub mix_byte : ℕ → ℕ → ℕ → ℕ
mix_byte v i h = bit_xor h (v / 2 ^ (8 * i) % 256) * 1099511628211 % 2 ^ 64

-- The rounds that are left of a value.
unfoldable pub mix_value : ℕ → ℕ → ℕ → ℕ → ℕ
mix_value zero v i h = h
mix_value (suc n) v i h = mix_value n v (i + 1) (mix_byte v i h)

abbrev pub avalanche : ℕ → ℕ
avalanche h = bit_xor h (h / 2 ^ 33)

unfoldable pub mix : ℕ → ℕ → ℕ → ℕ
unfolding mix_value
mix a b c =
    let h = mix_value 8 c 0 (mix_value 8 b 0 (mix_value 8 a 0 1469598103934665603)) in
    avalanche (avalanche h * 0xff51afd7ed558ccd % 2 ^ 64) % 2 ^ 32

abbrev pub or_zero : ℤ → ℕ
or_zero (pos n) = n
or_zero (negsuc n) = 0

-- Only called with one arm or more.
unfoldable pub block_of : ℤ → ℕ → ℕ
block_of spine_index arm_count = if ltb arm_count 1 then 0 else or_zero spine_index / arm_count

unfoldable pub position_of : ℤ → ℕ → ℕ
position_of spine_index arm_count = if ltb arm_count 1 then 0 else or_zero spine_index % arm_count

abbrev pub max_arms : ℕ
max_arms = 16

-- `perm[i] = i` from `start` on.
abbrev pub iota : ℕ → ℕ → List ℕ
iota start zero = []
iota start (suc n) = start ∷ iota (start + 1) n

abbrev pub set : List ℕ → ℕ → ℕ → List ℕ
set [] i v = []
set (x ∷ xs) zero v = v ∷ xs
set (x ∷ xs) (suc i) v = x ∷ set xs i v

unfoldable pub swap : ℕ → ℕ → List ℕ → List ℕ
swap i j perm = set (set perm i (get_or perm j 0)) j (get_or perm i 0)

-- The loop of the shuffle, from `i` down to 1.
unfoldable pub shuffle : ℕ → ℕ → ℕ → List ℕ → List ℕ
unfolding mix swap
shuffle key block zero perm = perm
shuffle key block (suc i) perm =
    shuffle key block i (swap (suc i) (mix key block (suc i) % (i + 2)) perm)

unfoldable pub arm_in : ℕ → ℕ → ℤ → ℕ → ℕ
unfolding shuffle block_of position_of
arm_in seed book_key spine_index arm_count =
    get_or
      (shuffle (bit_xor seed book_key) (block_of spine_index arm_count) (arm_count - 1)
        (iota 0 arm_count))
      (position_of spine_index arm_count) 0

unfoldable pub arm_index : ℕ → ℕ → ℤ → ℤ → ℕ
unfolding arm_in
arm_index seed book_key spine_index (negsuc n) = 0
arm_index seed book_key spine_index (pos arm_count) =
    if leb arm_count 1 then 0 else arm_in seed book_key spine_index (min arm_count max_arms)

-- The pages at the start of a chapter do not count.
abbrev pub counts_toward_outcome : ℤ → ℤ → Bool
counts_toward_outcome page_in_spine (negsuc n) = true
counts_toward_outcome (negsuc p) (pos n) = leb n 0
counts_toward_outcome (pos p) (pos n) = leb n p
