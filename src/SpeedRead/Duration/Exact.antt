-- ===== src/SpeedRead/Duration/Exact.antt =====
-- `durationMs` with exact arithmetic: the multiplier in tenths over the words per minute. The
-- products of `double` differ from it by rounding alone.
use crosspoint_simulator.Prelude.{
  ℕ, ◌+◌, ◌-◌, ◌*◌, ◌/◌, ◌≤◌, ◌≡◌, true, min, arith, leb, ltb, if◌then◌else◌,
}
use crosspoint_simulator.SpeedRead.Text.{anatomy, ends_sentence, ends_clause}
use crosspoint_simulator.SpeedRead.Duration.{Word, Timing, clamp_wpm}

unfoldable pub multiplier_tenths : Word → ℕ
multiplier_tenths w =
    (if ends_sentence w.text then 20 else if ends_clause w.text then 15 else 10)
    + (if ltb 8 (anatomy w.text).core then min 8 ((anatomy w.text).core - 8) else 0)
    + (if w.paragraph_end then 15 else 0)

-- Milliseconds as a fraction: 60000 / wpm times the multiplier.
pub record Fraction : Type 0 where
  pub num : ℕ
  pub den : ℕ

unfoldable pub duration_ms : Word → ℕ → Fraction
duration_ms w wpm = record { num = 6000 * multiplier_tenths w; den = clamp_wpm wpm }

pub fraction_whole : (t n d : ℕ) → leb n (t * d) ≡ true → n / d ≤ t
fraction_whole t n d h = grind arith

unfoldable pub exact : Timing
unfolding duration_ms
exact = record {
  Due = Fraction;
  due = duration_ms;
  reached = λ t f. leb f.num (t * f.den);
  whole = λ f. f.num / f.den;
  whole-le = λ t f. fraction_whole t f.num f.den;
}

multiplier_bounds : (w : Word) → (10 ≤ multiplier_tenths w) × (multiplier_tenths w ≤ 43)
unfolding multiplier_tenths
multiplier_bounds w = ground arith

pub clamp_bounds : (wpm : ℕ) → (100 ≤ clamp_wpm wpm) × (clamp_wpm wpm ≤ 1000)
clamp_bounds wpm = ground arith

-- A word stays up for 60 milliseconds at least and for 2.58 seconds at most, at any speed asked.
pub duration_bounds :
    (w : Word) (wpm : ℕ)
    → let d = duration_ms w wpm in (60 * d.den ≤ d.num) × (d.num ≤ 2580 * d.den)
unfolding duration_ms
duration_bounds w wpm = omega (arith, multiplier_bounds w, clamp_bounds wpm)
