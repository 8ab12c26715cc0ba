-- ===== src/SpeedRead/Tests.antt =====
-- Runs of the speed reader on concrete pages, and its theorems at such inputs.
use crosspoint_simulator.SpeedRead.Text.{ends_clause}
use crosspoint_simulator.SpeedRead.Duration.Exact.{multiplier_tenths}
use crosspoint_simulator.ReadAloud.{Rect}
use crosspoint_simulator.SpeedRead.Page.{words_from_page}
use crosspoint_simulator.SpeedRead.Page.Words.{WordOf, words_from_page-WordOf}
use crosspoint_simulator.Prelude.{
  starts_with, List, [], ◌∷◌, codes, refl, true, false, some, ◌≡◌, arith, ℕ, ◌⊎◌, ◌+◌, ◌++◌, Bytes,
  drop, ◌≤◌, All,
}
use crosspoint_simulator.SpeedRead.Text.{orp_glyph, ends_sentence, anatomy}
use crosspoint_simulator.SpeedRead.Duration.{Word}
use crosspoint_simulator.SpeedRead.Duration.Exact.{exact}
use crosspoint_simulator.SpeedRead.Reader.{
  Reader, initial, page_arrived, toggle_pause, back_sentence, step, no_event, current,
}
use crosspoint_simulator.SpeedRead.Reader.Order.{run, shown, turns, shown-turns}
use crosspoint_simulator.SpeedRead.Reader.Pace.{page_arrived-turns}
use crosspoint_simulator.SpeedRead.Reader.Sentences.{Lands, back_sentence-Lands}
use crosspoint_simulator.SpeedRead.Reader.Controls.{
  Call, tick, page, sentence_back, calls, calls-current,
}
use crosspoint_simulator.SpeedRead.Reader.Pause.{full_time, toggle_pause-step}

abbrev word : Bytes → Word
word text = record { text = text; frags = []; paragraph_end = false }

abbrev sample : List Word
sample = word (codes "Stop.") ∷ word (codes "Go") ∷ word (codes "on.") ∷ []

abbrev reading : Reader
reading = page_arrived initial sample 1000 false

-- At 300 words a minute a word ending a sentence takes 400 milliseconds.
abbrev ticks : List ℕ
ticks = 1399 ∷ 1400 ∷ 1600 ∷ 1999 ∷ 2000 ∷ 2001 ∷ []

shown-ticks : shown exact reading ticks ≡ word (codes "Go") ∷ word (codes "on.") ∷ []
unfolding shown page_arrived step exact multiplier_tenths ends_sentence anatomy ends_clause
    starts_with
shown-ticks = refl

turns-ticks : turns exact reading ticks ≡ 1
unfolding turns page_arrived step exact multiplier_tenths ends_sentence anatomy ends_clause
    starts_with
turns-ticks = refl

orp_glyph_quoted : orp_glyph (codes "\"reading,\"") ≡ 3
unfolding orp_glyph
orp_glyph_quoted = refl

shown-turns_example :
    (shown exact reading ticks ++ drop ((run exact reading ticks).index + 1) sample ≡ drop 1 sample)
    × ((turns exact reading ticks ≡ 0)
        ⊎ ((turns exact reading ticks ≡ 1) × (shown exact reading ticks ≡ drop 1 sample)))
unfolding page_arrived
shown-turns_example = shown-turns exact reading ticks refl refl

abbrev slow : List ℕ
slow = 4580 ∷ 8160 ∷ 11740 ∷ 15320 ∷ 18900 ∷ 19480 ∷ []

page_arrived-turns_example :
    (turns exact (page_arrived initial sample 1000 false) slow ≡ 1)
    × (shown exact (page_arrived initial sample 1000 false) slow
        ≡ word (codes "Go") ∷ word (codes "on.") ∷ [])
page_arrived-turns_example =
    page_arrived-turns 3580 1000 initial (word (codes "Stop."))
      (word (codes "Go") ∷ word (codes "on.") ∷ []) slow refl (omega arith) (grind arith)
      (omega arith)

toggle_pause-step_example :
    let resumed = toggle_pause (toggle_pause reading 1100) 90000 in
    (step exact resumed 90399 ≡ (resumed, no_event)) ⊎ (90000 + full_time exact resumed ≤ 90399)
unfolding toggle_pause page_arrived
toggle_pause-step_example =
    toggle_pause-step exact (toggle_pause reading 1100) 90000 90399 refl (omega arith) (omega arith)

abbrev at_last : Reader
at_last = record reading { index = 2 }

back_sentence-Lands_example :
    let back = back_sentence at_last 1700 in
    (back.words ≡ at_last.words) × Lands at_last.words at_last.index back.index
unfolding page_arrived
back_sentence-Lands_example = back_sentence-Lands at_last 1700 refl

abbrev presses : List Call
presses = page sample 1000 false ∷ tick 1400 ∷ tick 1600 ∷ sentence_back 1700 ∷ []

calls-current_example :
    let r = calls exact initial presses in
    ((r.words ≡ []) ⊎ ((w : Word) × (current r ≡ some w)))
    × ((r.has_page ≡ true) ⊎ (r.words ≡ []))
    × (100 ≤ r.wpm)
    × (r.wpm ≤ 1000)
calls-current_example = calls-current exact presses

abbrev box : ℕ → ℕ → ℕ → ℕ → Rect
box x y offset len = record { x = x; y = y; w = 40; h = 20; byte_offset = offset; byte_len = len }

-- "One two" on a line, the second word split over two lines, and a blank rectangle.
abbrev boxes : List Rect
boxes = box 0 0 0 3 ∷ box 50 0 4 3 ∷ box 0 24 4 3 ∷ box 50 24 3 1 ∷ []

words_from_page-boxes :
    words_from_page (codes "One two") boxes
    ≡ record { text = codes "One"; frags = box 0 0 0 3 ∷ []; paragraph_end = false }
      ∷ record {
        text = codes "two";
        frags = box 50 0 4 3 ∷ box 0 24 4 3 ∷ [];
        paragraph_end = true;
      }
      ∷ []
unfolding words_from_page
words_from_page-boxes = refl

words_from_page-WordOf_example :
    All (WordOf (codes "One two")) (words_from_page (codes "One two") boxes)
words_from_page-WordOf_example = words_from_page-WordOf (codes "One two") boxes
