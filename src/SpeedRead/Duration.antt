-- ===== src/SpeedRead/Duration.antt =====
-- `Word`, the limits and `durationMs` of src/SpeedRead.h.
pub mod Exact
use crosspoint_simulator.Prelude.{
  ℕ, zero, suc, ◌+◌, ◌-◌, ◌*◌, ◌/◌, ◌≤◌, ◌<◌, ◌≡◌, Bool, true, false, List, [], ◌∷◌, min, arith,
  leb, ltb, if◌then◌else◌, Bytes,
}
use crosspoint_simulator.ReadAloud.{Rect}
use crosspoint_simulator.SpeedRead.Text.{anatomy, ends_sentence, ends_clause}

pub record Word : Type 0 where
  pub text : Bytes
  pub frags : List Rect
  pub paragraph_end : Bool

abbrev pub default_wpm : ℕ
default_wpm = 300

abbrev pub min_wpm : ℕ
min_wpm = 100

abbrev pub max_wpm : ℕ
max_wpm = 1000

abbrev pub clamp_wpm : ℕ → ℕ
clamp_wpm wpm = if ltb wpm min_wpm then min_wpm else if ltb max_wpm wpm then max_wpm else wpm

-- The arithmetic of `double` that the reader uses: a duration, whether a number of milliseconds has
-- reached it, and its whole part. A number that has reached a duration has reached the whole part.
pub record Timing : Type 1 where
  pub Due : Type 0
  pub due : Word → ℕ → Due
  pub reached : ℕ → Due → Bool
  pub whole : Due → ℕ
  pub whole-le : (t : ℕ) (d : Due) → reached t d ≡ true → whole d ≤ t
