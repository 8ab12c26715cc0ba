-- ===== src/ReadAloud/Speech/Skips.antt =====
-- The pages that ios/ReadAloudCore.cpp turns by itself because they have no text.
use crosspoint_simulator.Prelude.{
  ℕ, ◌+◌, ◌≤◌, true, false, List, [], ◌∷◌, ◌≡◌, arith, is_empty, All,
}
use crosspoint_simulator.ReadAloud.Speech.{
  Action, turn_page_forward, Core, is_live, Call, page, call, set_enabled, page_arrived,
  utterance_finished, utterance_canceled, page_timeout, toggle_speech, toggle,
  restart_at_current_word, will_speak_byte, tap_at_logical, max_consecutive_skips,
}

abbrev pub turns : List Action → ℕ
turns [] = 0
turns (turn_page_forward ∷ actions) = turns actions + 1
turns (_ ∷ actions) = turns actions

-- The page turns that the calls ask for.
unfoldable pub turns_of : List Call → Core → ℕ
turns_of [] core = 0
turns_of (c ∷ calls) core = let (out, next) = call c core in turns out + turns_of calls next

-- Any call but that of a page with text or of one that is gone.
abbrev pub Textless : Call → Type 0
Textless (page p) = (is_empty p.utf8 ≡ true) × (p.cleared ≡ false)
Textless _ = Unit

-- No text is there, and nothing is said.
abbrev pub Blank : Core → Type 0
Blank core =
    (core.text_bytes ≡ 0)
    × (core.rects ≡ [])
    × (is_live core.state ≡ false)
    × (core.skipped_textless ≤ max_consecutive_skips)

call-turns :
    (c : Call) (core : Core)
    → Textless c
    → Blank core
    → Blank (call c core).1
      × (turns (call c core).0 + core.skipped_textless ≡ (call c core).1.skipped_textless)
unfolding call set_enabled page_arrived utterance_finished utterance_canceled page_timeout
    toggle_speech toggle restart_at_current_word will_speak_byte tap_at_logical
call-turns c core textless blank = ground (arith, textless, blank)

-- Where no text is there and none arrives, the pages that any calls turn are at most 12, those that were
-- turned before included.
turns_of-le :
    (calls : List Call) (core : Core)
    → All Textless calls
    → Blank core
    → turns_of calls core + core.skipped_textless ≤ max_consecutive_skips
unfolding turns_of
turns_of-le [] core h blank = omega (arith, blank)
turns_of-le (c ∷ calls) core (t, h) blank =
    let (still, one) = call-turns c core t blank in
    omega (arith, one, turns_of-le calls (call c core).1 h still)
