-- ===== src/SpeedRead/Reader/Outcome.antt =====
-- What one `step` of `Reader` can do: nothing, the next word, a request for the next page, or the
-- end of the book.
use crosspoint_simulator.Prelude.{
  if-cases, List, Option, none, some, Bool, get_elem?, is_empty, [], ◌∷◌, none, some, get_elem?,
  is_empty, ℕ, ◌≡◌, Option, ◌+◌, true, not, false, ◌<◌, ◌||◌, some, length, ◌≤◌, ltb, refl, arith,
  Bool, List, ◌∷◌, ltb→lt, ltb-ge,
}
use crosspoint_simulator.SpeedRead.Duration.{Word, Timing}
use crosspoint_simulator.SpeedRead.Reader.{
  Reader, Event, no_event, step, show, advance, ask_turn, since,
}

abbrev pub moved : Event
moved = record { changed = true; request_turn = false }

-- The state after the next word, whose time counts from `at`.
abbrev pub next_word : Reader → ℕ → Reader
next_word r at = record r { index = r.index + 1; shown_at = at }

pub data Outcome (r : Reader) (now : ℕ) (result : Reader × Event) : Type 0 where
  idle : result ≡ (r, no_event) → Outcome r now result
  next :
      (at : ℕ)
      → r.awaiting_turn ≡ false
      → r.index + 1 < length r.words
      → result ≡ (next_word r at, moved)
      → Outcome r now result
  asked :
      r.awaiting_turn ≡ false
      → length r.words ≤ r.index + 1
      → result ≡ ask_turn r now
      → Outcome r now result
  stopped :
      r.awaiting_turn ≡ true
      → r.finished ≡ false
      → result ≡ (record r { finished = true }, moved)
      → Outcome r now result

not_finished :
    (has paused finished : Bool) → (not has || (paused || finished)) ≡ false → finished ≡ false
not_finished has paused finished h = ground arith

ending : (words : List Word) (i : ℕ) → is_empty words ≡ true → length words ≤ i + 1
ending [] i h = omega arith
ending (w ∷ words) i h = ground arith

module _ (timing : Timing) where
  advance-Outcome :
      (r : Reader) (word : Word) (now : ℕ)
      → r.awaiting_turn ≡ false
      → Outcome r now (advance timing r word now)
  unfolding advance
  advance-Outcome r word now h =
      if-cases (Outcome r now) (timing.reached (since r.shown_at now) (timing.due word r.wpm))
        (λ k.
          if-cases (Outcome r now) (ltb (r.index + 1) (length r.words))
            (λ m. next _ h (ltb→lt _ _ m) refl) (λ m. asked h (ltb-ge _ _ m) refl))
        (λ k. idle refl)

  show-Outcome :
      (r : Reader) (o : Option Word) (now : ℕ)
      → r.awaiting_turn ≡ false
      → Outcome r now (show timing r o now)
  unfolding show
  show-Outcome r none now h = idle refl
  show-Outcome r (some word) now h = advance-Outcome r word now h

  pub step-Outcome : (r : Reader) (now : ℕ) → Outcome r now (step timing r now)
  unfolding step
  step-Outcome r now =
      if-cases (Outcome r now) (not r.has_page || (r.paused || r.finished)) (λ h. idle refl)
        (λ h.
          if-cases (Outcome r now) r.awaiting_turn
            (λ k.
              if-cases (Outcome r now) _
                (λ m. stopped k (not_finished r.has_page r.paused r.finished h) refl)
                (λ m. idle refl))
            (λ k.
              if-cases (Outcome r now) _
                (λ m.
                  if-cases (Outcome r now) _ (λ l. asked k (ending r.words r.index m) refl)
                    (λ l. idle refl))
                (λ m. show-Outcome r (get_elem? r.words r.index) now k)))
