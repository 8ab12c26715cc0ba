-- ===== src/SpeedRead/Text/Sentence.antt =====
-- Which words end a sentence, and that closing quotes and brackets do not hide it.
use crosspoint_simulator.Prelude.{
  ℕ, ◌≡◌, refl, ◌∙◌, true, List, [], ◌∷◌, ◌++◌, reverse, arith, Bytes, starts_with, append-nil,
  append_assoc,
}
use mathlib.Core.List.{reverse-append}
use crosspoint_simulator.SpeedRead.Text.{ends_it, closes_it, sentence_scan, ends_sentence}

-- What may close a sentence behind its mark: a byte `"`, `'`, `)` or `]`, or a curly quote.
data Closer : Type 0 where
  ascii : (c : ℕ) → closes_it c ≡ true → Closer
  double_quote single_quote : Closer

abbrev closer_bytes : Closer → Bytes
closer_bytes (ascii c _) = c ∷ []
closer_bytes double_quote = 0xe2 ∷ 0x80 ∷ 0x9d ∷ []
closer_bytes single_quote = 0xe2 ∷ 0x80 ∷ 0x99 ∷ []

abbrev closers_bytes : List Closer → Bytes
closers_bytes [] = []
closers_bytes (c ∷ cs) = closer_bytes c ++ closers_bytes cs

scan-closer :
    (c : Closer) (rest : Bytes)
    → sentence_scan 0 (reverse (closer_bytes c) ++ rest) ≡ sentence_scan 0 rest
unfolding sentence_scan starts_with
scan-closer (ascii c h) rest = ground arith
scan-closer double_quote rest = refl
scan-closer single_quote rest = refl

ends_sentence-closer :
    (w : Bytes) (c : Closer) → ends_sentence (w ++ closer_bytes c) ≡ ends_sentence w
unfolding ends_sentence
ends_sentence-closer w c = rw (reverse-append w (closer_bytes c)) (scan-closer c (reverse w))

-- Closing quotes and brackets, as many as there are, do not change whether a word ends a sentence.
ends_sentence-closers :
    (w : Bytes) (cs : List Closer) → ends_sentence (w ++ closers_bytes cs) ≡ ends_sentence w
ends_sentence-closers w [] = rw (append-nil w)
ends_sentence-closers w (c ∷ cs) =
    rw (← append_assoc w (closer_bytes c) (closers_bytes cs))
      (ends_sentence-closers (w ++ closer_bytes c) cs ∙ ends_sentence-closer w c)

-- So a word with a full stop, a question mark or an exclamation mark, or with an ellipsis, ends a
-- sentence behind any closers.
ends_sentence-mark : (w : Bytes) (m : ℕ) → ends_it m ≡ true → ends_sentence (w ++ m ∷ []) ≡ true
unfolding ends_sentence
ends_sentence-mark w m h = rw (reverse-append w (m ∷ [])) (rw h)
