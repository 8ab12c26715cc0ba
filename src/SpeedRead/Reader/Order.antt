-- ===== src/SpeedRead/Reader/Order.antt =====
-- Calls of `step` one after the other: the words put up are the page's words in order, and the
-- next page is asked for once, after the last of them.
use crosspoint_simulator.Prelude.{
  ℕ, zero, List, [], ◌∷◌, ◌++◌, drop, Option, some, ◌<◌, ◌+◌, ◌≡◌, Bool, false, length, ◌⊎◌, true,
  inl, get_elem?, suc, arith, refl, ◌≤◌, subst, sym, ap, inr, ◌∙◌, ap₂,
}
use crosspoint_simulator.SpeedRead.Duration.{Word, Timing}
use crosspoint_simulator.SpeedRead.Reader.{Reader, Event, step, current, ask_turn}
use crosspoint_simulator.SpeedRead.Reader.Outcome.{
  step-Outcome, idle, next, asked, stopped, next_word,
}

-- The word the host presents after an event: the current one, unless the reader has just stopped.
abbrev pub put_up : Bool → Bool → Option Word → List Word
put_up true false (some w) = w ∷ []
put_up _ _ _ = []

abbrev pub count : Bool → ℕ → ℕ
count true n = suc n
count false n = n

pub drop-get :
    (words : List Word) (i : ℕ)
    → i < length words
    → (w : Word) × (get_elem? words i ≡ some w) × (drop i words ≡ w ∷ drop (suc i) words)
drop-get [] i h = absurd (omega arith)
drop-get (w ∷ words) zero h = (w, refl, refl)
drop-get (w ∷ words) (suc i) h = drop-get words i (omega arith)

drop-all : (words : List Word) (i : ℕ) → length words ≤ i → drop i words ≡ []
drop-all [] zero h = refl
drop-all [] (suc i) h = refl
drop-all (w ∷ words) zero h = absurd (omega arith)
drop-all (w ∷ words) (suc i) h = drop-all words i (omega arith)

module _ (timing : Timing) where
  unfoldable pub run : Reader → List ℕ → Reader
  run r [] = r
  run r (t ∷ ts) = run (step timing r t).0 ts

  unfoldable pub shown : Reader → List ℕ → List Word
  unfolding current
  shown r [] = []
  shown r (t ∷ ts) =
      let s = step timing r t in put_up s.1.changed s.0.finished (current s.0) ++ shown s.0 ts

  unfoldable pub turns : Reader → List ℕ → ℕ
  turns r [] = 0
  turns r (t ∷ ts) = let s = step timing r t in count s.1.request_turn (turns s.0 ts)

  -- After the call whose result is `s` and the calls at `ts`, nothing has been put up and no page
  -- asked for.
  abbrev QuietAfter : Reader → List ℕ → Reader × Event → Type 0
  QuietAfter r ts s =
      (put_up s.1.changed s.0.finished (current s.0) ++ shown s.0 ts ≡ [])
      × (count s.1.request_turn (turns s.0 ts) ≡ 0)
      × ((run s.0 ts).index ≡ r.index)

  awaiting-turns :
      (r : Reader) (ts : List ℕ)
      → r.awaiting_turn ≡ true
      → (shown r ts ≡ []) × (turns r ts ≡ 0) × ((run r ts).index ≡ r.index)
  unfolding run shown turns current
  awaiting-turns r [] h = (refl, refl, refl)
  awaiting-turns r (t ∷ ts) h = elim (step-Outcome timing r t) [
    | idle e ↦ subst (QuietAfter r ts) (sym e) (awaiting-turns r ts h)
    | next at k _ _ ↦ absurd (ground arith)
    | asked k _ _ ↦ absurd (ground arith)
    | stopped _ _ e ↦
        subst (QuietAfter r ts) (sym e) (awaiting-turns (record r { finished = true }) ts h)
  ]

  -- Words that were put up, calls for the next page, and the index reached, against the words of
  -- `r` from its index on.
  abbrev Accounts : Reader → List Word → ℕ → ℕ → Type 0
  Accounts r ws n i =
      (ws ++ drop (i + 1) r.words ≡ drop (r.index + 1) r.words)
      × ((n ≡ 0) ⊎ ((n ≡ 1) × (ws ≡ drop (r.index + 1) r.words)))

  abbrev AccountsAfter : Reader → List ℕ → Reader × Event → Type 0
  AccountsAfter r ts s =
      Accounts r (put_up s.1.changed s.0.finished (current s.0) ++ shown s.0 ts)
        (count s.1.request_turn (turns s.0 ts)) (run s.0 ts).index

  accounts-cons :
      (w : Word) {put ws old new : List Word} {n : ℕ} (left : List Word)
      → put ≡ w ∷ []
      → old ≡ w ∷ new
      → (ws ++ left ≡ new) × ((n ≡ 0) ⊎ ((n ≡ 1) × (ws ≡ new)))
      → ((put ++ ws) ++ left ≡ old) × ((n ≡ 0) ⊎ ((n ≡ 1) × (put ++ ws ≡ old)))
  accounts-cons w left e d (h, inl z) = rw (e, d) (ap (◌∷◌ w) h, inl z)
  accounts-cons w left e d (h, inr z) = rw (e, d) (ap (◌∷◌ w) h, inr (z.0, ap (◌∷◌ w) z.1))

  put_up-current :
      (r : Reader) (w : Word)
      → r.finished ≡ false
      → get_elem? r.words r.index ≡ some w
      → put_up true r.finished (current r) ≡ w ∷ []
  unfolding current
  put_up-current r w f e = rw (f, e) refl

  pub shown-turns :
      (r : Reader) (ts : List ℕ)
      → r.awaiting_turn ≡ false
      → r.finished ≡ false
      → (shown r ts ++ drop ((run r ts).index + 1) r.words ≡ drop (r.index + 1) r.words)
        × ((turns r ts ≡ 0) ⊎ ((turns r ts ≡ 1) × (shown r ts ≡ drop (r.index + 1) r.words)))
  unfolding run shown turns ask_turn
  shown-turns r [] h f = (refl, inl refl)
  shown-turns r (t ∷ ts) h f = elim (step-Outcome timing r t) [
    | idle e ↦ subst (AccountsAfter r ts) (sym e) (shown-turns r ts h f)
    | next at _ k e ↦
        let d = drop-get r.words (r.index + 1) k in
        subst (AccountsAfter r ts) (sym e) (
          accounts-cons d.0 _ (put_up-current (next_word r at) d.0 f d.1)
            (d.2 ∙ ap (λ i. d.0 ∷ drop i r.words) {x = suc (r.index + 1)} (omega arith))
            (shown-turns (next_word r at) ts h f))
    | asked _ k e ↦
        let q = awaiting-turns (ask_turn r t).0 ts refl in
        let none_left = drop-all r.words (r.index + 1) k in
        subst (AccountsAfter r ts) (sym e) (
          ap₂ (◌++◌) q.0 (ap (λ i. drop (i + 1) r.words) q.2),
          inr (ap suc q.1, q.0 ∙ sym none_left),
        )
    | stopped k _ _ ↦ absurd (ground arith)
  ]
