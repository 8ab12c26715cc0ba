-- ===== src/SpeedRead/Reader/Pace.antt =====
-- How long `Reader` takes for a page when `step` is called often enough.
use crosspoint_simulator.Prelude.{
  ◌*◌, refl, zero, suc, if◌then◌else◌, [], ◌∷◌, false, true, if-cases, ltb→lt, ℕ, List, Bool, some,
  get_elem?, length, ◌<◌, ◌≤◌, ◌≡◌, is_empty, ◌^◌, ◌+◌, true, false, if-cases, ◌-◌, ltb, refl,
  arith, ◌∷◌, ◌%◌, ◌*◌, subst, suc, sym, ◌∙◌, inr, inl, leb, ap,
}
use crosspoint_simulator.SpeedRead.Reader.Order.{count, run, turns, drop-get, shown-turns, shown}
use crosspoint_simulator.SpeedRead.Duration.Exact.{exact, duration_bounds, duration_ms}
use crosspoint_simulator.SpeedRead.Duration.{Word, Timing}
use crosspoint_simulator.SpeedRead.Reader.{
  Reader, Event, page_arrived, step, advance, show, since, ask_turn, no_event,
}
use crosspoint_simulator.SpeedRead.Reader.Outcome.{next_word, moved}

pub since-le : (earlier now : ℕ) → earlier ≤ now → now < 2 ^ 64 → since earlier now ≡ now - earlier
unfolding since
since-le earlier now h k = omega arith

pub record Reading (r : Reader) (word : Word) : Type 0 where
  pub page : r.has_page ≡ true
  pub running : r.paused ≡ false
  pub going : r.finished ≡ false
  pub free : r.awaiting_turn ≡ false
  pub up : get_elem? r.words r.index ≡ some word

get-is_empty :
    (words : List Word) (i : ℕ) (w : Word) → get_elem? words i ≡ some w → is_empty words ≡ false
get-is_empty [] i w h = ground arith
get-is_empty (v ∷ words) i w h = refl

not_yet : (b t : ℕ) (x : Bool) → (b ≤ t → x ≡ true) → x ≡ false → t < b
not_yet b t x f e = grind arith

-- Where the clock of the next word starts.
abbrev clock : ℕ → ℕ → ℕ → ℕ
clock at now w = if ltb (since at now) w then at else now

clock_bounds :
    (s now w b : ℕ)
    → s + w ≤ now
    → now < 2 ^ 64
    → w ≤ b
    → 0 < b
    → (clock ((s + w) % 2 ^ 64) now w ≤ now) × (now < clock ((s + w) % 2 ^ 64) now w + b)
clock_bounds s now w b h k l pos =
    let e : (s + w) % 2 ^ 64 ≡ s + w = omega arith in
    rw e (
      if-cases (λ at. (at ≤ now) × (now < at + b)) (ltb (since (s + w) now) w)
        (λ m. (h, omega (arith, since-le (s + w) now h k, ltb→lt _ _ m)))
        (λ m. (omega arith, omega arith)))

get-lt : (words : List Word) (i : ℕ) (w : Word) → get_elem? words i ≡ some w → i < length words
get-lt [] i w h = ground arith
get-lt (v ∷ words) zero w h = omega arith
get-lt (v ∷ words) (suc i) w h = omega (arith, get-lt words i w h)

room : (n i c : ℕ) → i < n → (n - (i + 1)) * c + c ≡ (n - i) * c
room n i c h = let e : n - i ≡ suc (n - (i + 1)) = omega arith in rw e (grind arith)

-- The calls up to the next word took less than `c`.
chained : (stop from at c x y : ℕ) → stop < at + x → at < from + c → x + c ≡ y → stop < from + y
chained stop from at c x y h k e = omega arith

-- Calls at most `g` milliseconds apart, after one at `t₀`.
abbrev pub Paced : ℕ → ℕ → List ℕ → Type 0
Paced g last [] = Unit
Paced g last (t ∷ ts) = (last ≤ t) × (t ≤ last + g) × (t < 2 ^ 64) × Paced g t ts

abbrev pub last_call : ℕ → List ℕ → ℕ
last_call last [] = last
last_call last (t ∷ ts) = last_call t ts

module _ (timing : Timing) where
  open timing use {due, reached, whole}

  step-advance :
      (r : Reader) (word : Word) (now : ℕ)
      → Reading r word
      → step timing r now ≡ advance timing r word now
  unfolding step show
  step-advance r word now h =
      simp (h.page, h.running, h.going, h.free, get-is_empty r.words r.index word h.up, h.up) refl

  -- What `advance` does to a word on its clock, when every word is due after `b` milliseconds.
  data Pace (b : ℕ) (r : Reader) (now : ℕ) (result : Reader × Event) : Type 0 where
    waits : now < r.shown_at + b → result ≡ (r, no_event) → Pace b r now result
    goes :
        (at : ℕ)
        → at ≤ now
        → now < at + b
        → r.index + 1 < length r.words
        → result ≡ (next_word r at, moved)
        → Pace b r now result
    ends : result ≡ ask_turn r now → Pace b r now result

  advance-Pace :
      (b : ℕ) (r : Reader) (word : Word) (now : ℕ)
      → 0 < b
      → ((t : ℕ) → b ≤ t → reached t (due word r.wpm) ≡ true)
      → r.shown_at ≤ now
      → now < 2 ^ 64
      → Pace b r now (advance timing r word now)
  unfolding advance
  advance-Pace b r word now pos late h k =
      let d = due word r.wpm in
      let passed = since-le r.shown_at now h k in
      if-cases (Pace b r now) (reached (since r.shown_at now) d)
        (λ m.
          let early = timing.whole-le _ d m in
          let short = timing.whole-le b d (late b (omega arith)) in
          let c =
            clock_bounds r.shown_at now (whole d) b (omega (arith, passed, early)) k short pos in
          if-cases (Pace b r now) (ltb (r.index + 1) (length r.words))
            (λ l. goes _ c.0 c.1 (ltb→lt _ _ l) refl) (λ l. ends refl))
        (λ m. waits (omega (arith, passed, not_yet b _ _ (late _) m)) refl)

  abbrev Unasked : ℕ → ℕ → ℕ → List ℕ → Reader → Reader × Event → Type 0
  Unasked b g now ts r s =
      count s.1.request_turn (turns timing s.0 ts) ≡ 0
      → last_call now ts < r.shown_at + (length r.words - r.index) * (b + g)

  pub turns-within :
      (b g last : ℕ) (r : Reader) (word : Word) (ts : List ℕ)
      → 0 < b
      → ((w : Word) (t : ℕ) → b ≤ t → reached t (due w r.wpm) ≡ true)
      → Reading r word
      → r.shown_at ≤ last
      → last < r.shown_at + b
      → last < 2 ^ 64
      → Paced g last ts
      → turns timing r ts ≡ 0
      → last_call last ts < r.shown_at + (length r.words - r.index) * (b + g)
  unfolding run turns ask_turn
  turns-within b g last r word [] pos late h ge lt k p z =
      let n = length r.words in
      omega (arith, room n r.index (b + g) (get-lt r.words r.index word h.up))
  turns-within b g last r word (t ∷ ts) pos late h ge lt k p z =
      elim (advance-Pace b r word t pos (late word) (omega (arith, p.0)) p.2) [
        | waits l e ↦
            subst (Unasked b g t ts r) (sym (step-advance r word t h ∙ e))
              (turns-within b g t r word ts pos late h (omega (arith, p.0)) l p.2 p.3) z
        | goes at l m n e ↦
            subst (Unasked b g t ts r) (sym (step-advance r word t h ∙ e))
              (λ u.
                chained _ _ at (b + g) _ _
                  (turns-within b g t (next_word r at) (drop-get r.words (r.index + 1) n).0 ts pos
                    late
                    (record {
                      page = h.page;
                      running = h.running;
                      going = h.going;
                      free = h.free;
                      up = (drop-get r.words (r.index + 1) n).1;
                    })
                    l m p.2 p.3 u)
                  (omega (arith, p.1)) (room (length r.words) r.index (b + g) (omega arith)))
              z
        | ends e ↦
            subst (Unasked b g t ts r) (sym (step-advance r word t h ∙ e))
              (λ u. absurd (omega (arith, u))) z
      ]

from_start : (n c : ℕ) → (n - 0) * c ≡ n * c
from_start n c = ap (λ m. m * c) {x = n - 0} {y = n} (omega arith)

leb-of : (a b : ℕ) → a ≤ b → leb a b ≡ true
leb-of a b h = ground arith

scaled : (d t : ℕ) → 2580 ≤ t → 2580 * d ≤ t * d
scaled d t h = grind arith

exact-late : (w : Word) (wpm t : ℕ) → 2580 ≤ t → exact.reached t (exact.due w wpm) ≡ true
unfolding exact
exact-late w wpm t h =
    let d = duration_ms w wpm in
    leb-of d.num (t * d.den) (omega (arith, duration_bounds w wpm, scaled d.den t h))

-- A page of words that arrives while the reader runs is read to its end: once `step` has been
-- called at most `g` milliseconds apart for as long as 2580 + `g` milliseconds a word, every further
-- word has been put up in order and the next page has been asked for exactly once. Times stay below
-- 2 ^ 64 and the arithmetic of the durations is exact.
pub page_arrived-turns :
    (g now : ℕ) (r : Reader) (w : Word) (ws : List Word) (ts : List ℕ)
    → r.paused ≡ false
    → now < 2 ^ 64
    → Paced g now ts
    → now + length (w ∷ ws) * (2580 + g) ≤ last_call now ts
    → let fresh = page_arrived r (w ∷ ws) now false in
      (turns exact fresh ts ≡ 1) × (shown exact fresh ts ≡ ws)
unfolding page_arrived
page_arrived-turns g now r w ws ts go k p long =
    let fresh = page_arrived r (w ∷ ws) now false in
    let n = length (w ∷ ws) in
    let up : Reading fresh w = record {
      page = refl;
      running = go;
      going = refl;
      free = refl;
      up = refl;
    } in
    elim (shown-turns exact fresh ts refl refl).1 [
      | inr done ↦ done
      | inl z ↦
          let early : last_call now ts < now + (n - 0) * (2580 + g) =
            turns-within exact 2580 g now fresh w ts (omega arith) (λ v. exact-late v r.wpm) up
              (omega arith) (omega arith) k p z in
          absurd (omega (arith, early, from_start n (2580 + g)))
    ]
