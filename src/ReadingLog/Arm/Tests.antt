-- ===== src/ReadingLog/Arm/Tests.antt =====
-- Arms of src/ReadingArm.h for some books.
use mathlib.Core.List.{Perm}
use crosspoint_simulator.Prelude.{ℕ, ◌+◌, ◌*◌, ◌≡◌, refl, map, arith, pos, negsuc}
use crosspoint_simulator.ReadingLog.Arm.{block_of, position_of, iota, arm_in, arm_index}
use crosspoint_simulator.ReadingLog.Arm.Balanced.{arms-balanced}

one_arm : arm_index 7 9 (pos 3) (pos 1) ≡ 0
unfolding arm_index
one_arm = refl

front_matter : arm_index 7 9 (negsuc 0) (pos 3) ≡ arm_index 7 9 (pos 0) (pos 3)
unfolding arm_index arm_in block_of position_of
front_matter = refl

arms-balanced_example :
    Perm (map (λ (p : ℕ). arm_index 5 77 (pos (2 * 4 + p)) (pos 4)) (iota 0 4)) (iota 0 4)
arms-balanced_example = arms-balanced 5 77 2 4 (omega arith) (omega arith)
