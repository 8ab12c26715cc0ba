-- ===== src/SpeedRead/Reader/Sentences.antt =====
-- `backSentence`: where it lands.
use crosspoint_simulator.Prelude.{
  if◌then◌else◌, ℕ, zero, suc, List, get_elem?, true, false, is_empty, ◌≤◌, arith, ◌≡◌, ◌<◌,
  Bool-cases, inl, ◌⊎◌, ◌-◌, ◌==◌, if-cases, inr, ==_iff, refl, ◌&&◌, ltb, subst,
}
use crosspoint_simulator.SpeedRead.Duration.{Word}
use crosspoint_simulator.SpeedRead.Reader.{Reader, ends_at, start_of, back_sentence}

-- Position `s` starts a sentence: it is the first word, or the word before it ends a sentence.
abbrev pub Starts : List Word → ℕ → Type 0
Starts words s = (s ≡ 0) ⊎ ((k : ℕ) × (s ≡ suc k) × (ends_at (get_elem? words k) ≡ true))

-- No word from `s` up to the one before `i` ends a sentence.
abbrev pub Unbroken : List Word → ℕ → ℕ → Type 0
Unbroken words s i = (k : ℕ) → s ≤ k → k < i → ends_at (get_elem? words k) ≡ false

abbrev pub StartOf : List Word → ℕ → ℕ → Type 0
StartOf words i s = (s ≤ i) × Starts words s × Unbroken words s i

extend :
    (words : List Word) (s i : ℕ)
    → Unbroken words s i
    → ends_at (get_elem? words i) ≡ false
    → Unbroken words s (suc i)
extend words s i p h k l m = elim (Bool-cases (k == i)) [
  | inl e ↦ rw ((==_iff k i).0 e) h
  | inr e ↦ p k l (ground arith)
]

pub start_of-StartOf : (words : List Word) (i : ℕ) → StartOf words i (start_of words i)
unfolding start_of
start_of-StartOf words zero = (omega arith, inl refl, λ k h l. absurd (omega arith))
start_of-StartOf words (suc i) =
    if-cases (StartOf words (suc i)) (ends_at (get_elem? words i))
      (λ h. (omega arith, inr (i, refl, h), λ k l m. absurd (omega arith)))
      (λ h.
        let p = start_of-StartOf words i in
        (omega (arith, p.0), p.1, extend words (start_of words i) i p.2 h))

-- Where `backSentence` may land from `i`.
abbrev pub Lands : List Word → ℕ → ℕ → Type 0
Lands words i s =
    (((s < i) ⊎ (i ≡ 0)) × StartOf words i s) ⊎ ((0 < i) × Starts words i × StartOf words (i - 1) s)

abbrev Back : Reader → Reader → Type 0
Back r back = (back.words ≡ r.words) × Lands r.words r.index back.index

moved_to : (s i : ℕ) → (s == i && ltb 0 i) ≡ false → s ≤ i → (s < i) ⊎ (i ≡ 0)
moved_to s i h k = ground arith

lands :
    (words : List Word) (i : ℕ)
    → let s = start_of words i in
      Lands words i (if s == i && ltb 0 i then start_of words (i - 1) else s)
lands words i =
    let s = start_of words i in
    let p = start_of-StartOf words i in
    if-cases (Lands words i) (s == i && ltb 0 i)
      (λ h.
        inr (ground arith, subst (Starts words) (ground arith) p.1, start_of-StartOf words (i - 1)))
      (λ h. inl (moved_to s i h p.0, p))

-- Going back by a sentence on a page with words keeps the page. From inside a sentence it lands at
-- the start of that sentence, with no sentence end in between; from the start of one, at the start
-- of the sentence before; and on the first word it stays.
pub back_sentence-Lands :
    (r : Reader) (now : ℕ)
    → is_empty r.words ≡ false
    → let back = back_sentence r now in (back.words ≡ r.words) × Lands r.words r.index back.index
unfolding back_sentence
back_sentence-Lands r now h =
    if-cases (Back r) (is_empty r.words) (λ k. absurd (ground arith))
      (λ k. (refl, lands r.words r.index))
