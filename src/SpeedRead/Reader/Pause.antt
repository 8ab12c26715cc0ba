-- ===== src/SpeedRead/Reader/Pause.antt =====
-- A pause stops all three clocks of `Reader`.
use crosspoint_simulator.Prelude.{
  not, ℕ, Option, some, none, get_elem?, is_empty, true, if-cases, if◌then◌else◌, ◌≡◌, ◌≤◌, ◌<◌,
  ◌⊎◌, ◌+◌, ◌^◌, inl, inr, arith, refl, ◌||◌, if-both, leb, leb→le,
}
use crosspoint_simulator.SpeedRead.Duration.{Word, Timing}
use crosspoint_simulator.SpeedRead.Reader.{
  Reader, Event, no_event, since, advance, show, step, toggle_pause, turn_timeout_ms,
  empty_page_dwell_ms, ask_turn,
}
use crosspoint_simulator.SpeedRead.Reader.Pace.{since-le}

module _ (timing : Timing) where
  open timing use {due, reached, whole}

  abbrev pub word_time : Option Word → ℕ → ℕ
  word_time none wpm = 0
  word_time (some w) wpm = whole (due w wpm)

  -- The time that the clock in force has to run in full.
  abbrev pub full_time : Reader → ℕ
  full_time r =
      if r.awaiting_turn
      then turn_timeout_ms
      else if is_empty r.words
      then empty_page_dwell_ms
      else word_time (get_elem? r.words r.index) r.wpm

  -- Either nothing happens at `t`, or the clock that started at `from` has run in full.
  abbrev Held : ℕ → ℕ → Reader → Reader × Event → ℕ → Type 0
  Held from t r s full = (s ≡ (r, no_event)) ⊎ (from + full ≤ t)

  show-Held :
      (r : Reader) (o : Option Word) (t : ℕ)
      → r.shown_at ≤ t
      → t < 2 ^ 64
      → Held r.shown_at t r (show timing r o t) (word_time o r.wpm)
  unfolding show advance
  show-Held r none t h k = inl refl
  show-Held r (some w) t h k =
      let d = due w r.wpm in
      let passed = since-le r.shown_at t h k in
      if-cases (λ s. Held r.shown_at t r s (whole d)) (reached (since r.shown_at t) d)
        (λ m. inr (omega (arith, passed, timing.whole-le _ d m))) (λ m. inl refl)

  step-Held :
      (r : Reader) (t : ℕ)
      → r.arrived_at ≡ r.shown_at
      → r.turn_asked_at ≡ r.shown_at
      → r.shown_at ≤ t
      → t < 2 ^ 64
      → Held r.shown_at t r (step timing r t) (full_time r)
  unfolding step ask_turn
  step-Held r t a q h k =
      if-cases (λ s. Held r.shown_at t r s (full_time r))
        (not r.has_page || (r.paused || r.finished)) (λ _. inl refl)
        (λ _.
          if-both (Held r.shown_at t r) r.awaiting_turn
            (λ _.
              if-cases (λ s. Held r.shown_at t r s turn_timeout_ms)
                (leb turn_timeout_ms (since r.turn_asked_at t))
                (λ m. inr (omega (arith, since-le r.turn_asked_at t (omega arith) k, leb→le _ _ m)))
                (λ _. inl refl))
            (λ _.
              if-both (Held r.shown_at t r) (is_empty r.words)
                (λ _.
                  if-cases (λ s. Held r.shown_at t r s empty_page_dwell_ms)
                    (leb empty_page_dwell_ms (since r.arrived_at t))
                    (λ m.
                      inr (omega (arith, since-le r.arrived_at t (omega arith) k, leb→le _ _ m)))
                    (λ _. inl refl))
                (λ _. show-Held r (get_elem? r.words r.index) t h k)))

  -- After a pause ends at `now`, `step` does nothing until the clock in force has run in full again:
  -- 4000 milliseconds for a page that was asked for, 1500 for an empty page, and the whole time of
  -- the word that is up. Time does not run backwards and stays below 2 ^ 64.
  pub toggle_pause-step :
      (r : Reader) (now t : ℕ)
      → r.paused ≡ true
      → now ≤ t
      → t < 2 ^ 64
      → let resumed = toggle_pause r now in
        (step timing resumed t ≡ (resumed, no_event)) ⊎ (now + full_time resumed ≤ t)
  unfolding toggle_pause
  toggle_pause-step r now t p h k =
      if-cases (λ resumed. Held now t resumed (step timing resumed t) (full_time resumed)) r.paused
        (λ _. step-Held _ t refl refl h k) (λ q. absurd (ground arith))
