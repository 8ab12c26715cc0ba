-- ===== src/ReadAloud/Speech/Tests.antt =====
-- Runs of ios/ReadAloudCore.cpp on small inputs.
use crosspoint_simulator.Prelude.{
  ℕ, ◌≡◌, true, false, List, [], ◌∷◌, none, some, arith, codes, pos, inr,
}
use crosspoint_simulator.ReadAloud.{Rect, Page}
use crosspoint_simulator.ReadAloud.Speech.{
  Call, enable, page, finished, toggled, tap, Core, initial_core, rect_containing,
}
use crosspoint_simulator.ReadAloud.Speech.Voice.{silent, view_of}
use crosspoint_simulator.ReadAloud.Speech.Calls.{perform_calls, after, perform_calls-initial}
use crosspoint_simulator.ReadAloud.Speech.Words.{range_in, word_at, rect_containing-word_at}

abbrev word : ℕ → ℕ → ℕ → Rect
word left start len = record {
  x = left;
  y = 10;
  w = 20;
  h = 12;
  byte_offset = start;
  byte_len = len;
}

abbrev two_words : Page
two_words = record {
  utf8 = codes "an ox";
  rects = word 5 0 2 ∷ word 30 3 2 ∷ [];
  generation = 1;
  cleared = false;
  published_at_ms = 0;
}

abbrev blank_page : Page
blank_page = record { utf8 = []; rects = []; generation = 2; cleared = false; published_at_ms = 0 }

abbrev some_calls : List Call
some_calls =
    enable true
    ∷ page two_words
    ∷ tap (pos 31) (pos 12)
    ∷ toggled
    ∷ toggled
    ∷ finished
    ∷ page blank_page
    ∷ []

perform_calls-initial_example :
    (perform_calls some_calls initial_core (some (silent, none))
      ≡ some (view_of (after some_calls initial_core)))
    × ((view_of (after some_calls initial_core)).0 ≡ silent
        → (view_of (after some_calls initial_core)).1 ≡ none)
perform_calls-initial_example = perform_calls-initial some_calls

abbrev at_words : Core
at_words = record initial_core { rects = two_words.rects; scan_cursor = 1 }

rect_containing-word_at_example :
    range_in (rect_containing 1 at_words).0 ≡ word_at two_words.rects 1
rect_containing-word_at_example =
    rect_containing-word_at 1 at_words (omega arith, (inr (omega arith), tt), (omega arith, tt, tt))
