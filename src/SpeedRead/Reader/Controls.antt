-- ===== src/SpeedRead/Reader/Controls.antt =====
-- Any sequence of the calls of `Reader`, from its construction on.
use crosspoint_simulator.Prelude.{
  if◌then◌else◌, ℕ, List, [], ◌∷◌, Bool, some, get_elem?, true, false, if-cases, ◌≤◌, arith, inr,
  length, ◌-◌, ◌≡◌, ◌⊎◌, refl, ◌==◌, ◌&&◌, inl, subst, ltb, is_empty, ◌∙◌, sym, ap,
}
use crosspoint_simulator.SpeedRead.Reader.Sentences.{start_of-StartOf}
use crosspoint_simulator.SpeedRead.Reader.Order.{drop-get}
use crosspoint_simulator.SpeedRead.Duration.Exact.{clamp_bounds}
use crosspoint_simulator.SpeedRead.Duration.{Word, Timing}
use crosspoint_simulator.SpeedRead.Reader.{
  Reader, ask_turn, initial, set_wpm, page_arrived, clear, step, toggle_pause, set_paused,
  back_word, back_sentence, start_of, current,
}
use crosspoint_simulator.SpeedRead.Reader.Outcome.{step-Outcome, idle, next, asked, stopped}

pub data Call : Type 0 where
  speed : ℕ → Call
  page : List Word → ℕ → Bool → Call
  leave : Call
  tick : ℕ → Call
  pause_key : ℕ → Call
  pause_to : Bool → ℕ → Call
  word_back : ℕ → Call
  sentence_back : ℕ → Call

-- The index is one of the page's words, or 0 on an empty page; without a page there are no words;
-- the speed is within the limits.
pub record WellFormed (r : Reader) : Type 0 where
  pub in_page : r.index ≤ length r.words - 1
  pub no_page : (r.has_page ≡ true) ⊎ (r.words ≡ [])
  pub speed_ok : (100 ≤ r.wpm) × (r.wpm ≤ 1000)

-- A state with another index in range.
at_index :
    (r : Reader) (i now : ℕ)
    → WellFormed r
    → i ≤ r.index
    → WellFormed (record r { index = i; shown_at = now; awaiting_turn = false })
at_index r i now h k = record {
  in_page = omega (arith, h.in_page);
  no_page = h.no_page;
  speed_ok = h.speed_ok;
}

no_words : (words : List Word) → length words ≡ 0 → words ≡ []
no_words [] h = refl
no_words (w ∷ words) h = absurd (omega arith)

same_words :
    (r : Reader) (words : List Word)
    → WellFormed r
    → length words ≡ length r.words
    → WellFormed (record r { words = words })
same_words r words h e = record {
  in_page = omega (arith, h.in_page);
  no_page = elim h.no_page [ inl k ↦ inl k | inr k ↦ inr (no_words words (e ∙ ap length k)) ];
  speed_ok = h.speed_ok;
}

start_of-le : (words : List Word) (i : ℕ) → start_of words i ≤ i
start_of-le words i = (start_of-StartOf words i).0

back-le :
    (words : List Word) (i : ℕ)
    → let s = start_of words i in (if s == i && ltb 0 i then start_of words (i - 1) else s) ≤ i
back-le words i =
    if-cases (λ s. s ≤ i) (start_of words i == i && ltb 0 i)
      (λ k. omega (arith, start_of-le words (i - 1))) (λ k. start_of-le words i)

toggle_pause-WellFormed : (r : Reader) (now : ℕ) → WellFormed r → WellFormed (toggle_pause r now)
unfolding toggle_pause
toggle_pause-WellFormed r now h =
    if-cases WellFormed r.paused
      (λ k. record { in_page = h.in_page; no_page = h.no_page; speed_ok = h.speed_ok })
      (λ k. record { in_page = h.in_page; no_page = h.no_page; speed_ok = h.speed_ok })

word_at :
    (words : List Word) (i : ℕ)
    → i ≤ length words - 1
    → (words ≡ []) ⊎ ((w : Word) × (get_elem? words i ≡ some w))
word_at [] i h = inl refl
word_at (w ∷ words) i h = let d = drop-get (w ∷ words) i (omega (arith, h)) in inr (d.0, d.1)

module _ (timing : Timing) where
  tick-WellFormed : (r : Reader) (now : ℕ) → WellFormed r → WellFormed (step timing r now).0
  unfolding ask_turn
  tick-WellFormed r now h = elim (step-Outcome timing r now) [
    | idle e ↦ subst (λ s. WellFormed s.0) (sym e) h
    | next at _ k e ↦
        subst (λ s. WellFormed s.0) (sym e)
          (record { in_page = omega (arith, k); no_page = h.no_page; speed_ok = h.speed_ok })
    | asked _ _ e ↦
        subst (λ s. WellFormed s.0) (sym e)
          (record { in_page = h.in_page; no_page = h.no_page; speed_ok = h.speed_ok })
    | stopped _ _ e ↦
        subst (λ s. WellFormed s.0) (sym e)
          (record { in_page = h.in_page; no_page = h.no_page; speed_ok = h.speed_ok })
  ]

  unfoldable pub call : Reader → Call → Reader
  call r (speed wpm) = set_wpm r wpm
  call r (page words now same_page) = page_arrived r words now same_page
  call r leave = clear r
  call r (tick now) = (step timing r now).0
  call r (pause_key now) = toggle_pause r now
  call r (pause_to p now) = set_paused r p now
  call r (word_back now) = back_word r now
  call r (sentence_back now) = back_sentence r now

  unfoldable pub calls : Reader → List Call → Reader
  calls r [] = r
  calls r (c ∷ cs) = calls (call r c) cs

  call-WellFormed : (r : Reader) (c : Call) → WellFormed r → WellFormed (call r c)
  unfolding call set_wpm page_arrived clear set_paused back_word back_sentence
  call-WellFormed r (speed wpm) h = record {
    in_page = h.in_page;
    no_page = h.no_page;
    speed_ok = clamp_bounds wpm;
  }
  call-WellFormed r (page words now same_page) h =
      if-cases WellFormed (same_page && length words == length r.words)
        (λ k. same_words r words h (ground arith))
        (λ k. record { in_page = omega arith; no_page = inl refl; speed_ok = h.speed_ok })
  call-WellFormed r leave h = record {
    in_page = omega arith;
    no_page = inr refl;
    speed_ok = h.speed_ok;
  }
  call-WellFormed r (tick now) h = tick-WellFormed r now h
  call-WellFormed r (pause_key now) h = toggle_pause-WellFormed r now h
  call-WellFormed r (pause_to true now) h =
      if-cases WellFormed r.paused (λ k. h) (λ k. toggle_pause-WellFormed r now h)
  call-WellFormed r (pause_to false now) h =
      if-cases WellFormed r.paused (λ k. toggle_pause-WellFormed r now h) (λ k. h)
  call-WellFormed r (word_back now) h = at_index r _ now h (ground arith)
  call-WellFormed r (sentence_back now) h =
      if-cases WellFormed (is_empty r.words) (λ k. h)
        (λ k. at_index r _ now h (back-le r.words r.index))

  calls-WellFormed : (r : Reader) (cs : List Call) → WellFormed r → WellFormed (calls r cs)
  unfolding calls
  calls-WellFormed r [] h = h
  calls-WellFormed r (c ∷ cs) h = calls-WellFormed (call r c) cs (call-WellFormed r c h)

-- After any calls on a fresh reader, `step` never reads past the words: either the page is empty,
-- or its index is that of a word. There are no words without a page, and the speed is 100 to 1000
-- words a minute.
pub calls-current :
    (timing : Timing) (cs : List Call)
    → let r = calls timing initial cs in
      ((r.words ≡ []) ⊎ ((w : Word) × (current r ≡ some w)))
      × ((r.has_page ≡ true) ⊎ (r.words ≡ []))
      × (100 ≤ r.wpm)
      × (r.wpm ≤ 1000)
unfolding current
calls-current timing cs =
    let r = calls timing initial cs in
    let h : WellFormed r = calls-WellFormed timing initial cs (record {
      in_page = omega arith;
      no_page = inr refl;
      speed_ok = (omega arith, omega arith);
    }) in
    (word_at r.words r.index h.in_page, h.no_page, h.speed_ok.0, h.speed_ok.1)
