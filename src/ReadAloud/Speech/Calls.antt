-- ===== src/ReadAloud/Speech/Calls.antt =====
-- Any calls of ios/ReadAloudCore.cpp in any order.
use crosspoint_simulator.Prelude.{
  ℕ, false, not, ◌&&◌, List, [], ◌∷◌, Option, none, some, ◌≡◌, ◌∙◌, refl, ap, arith, if-cases,
  is_empty, ℤ,
}
use crosspoint_simulator.ReadAloud.{Rect}
use crosspoint_simulator.ReadAloud.Speech.{
  Core, is_live, is_speaking, is_awaiting, Acted, stop_live, set_enabled, page_arrived,
  utterance_finished, utterance_canceled, page_timeout, rect_containing, same_word, will_speak_byte,
  begin_from, begin_at, toggle, toggle_speech, clear_missing, restart_at_current_word, tapped,
  tap_word, tap_at_logical, Call, enable, page, finished, canceled, timeout, toggled, restart,
  will_speak, tap, call, initial_core,
}
use crosspoint_simulator.ReadAloud.Speech.Voice.{View, perform_from, heard, view_of, silent}
use crosspoint_simulator.ReadAloud.Speech.Follows.{call-Follows, rect_containing-OnlyCursor}

-- The calls and the actions that each of them asks for, from the view that they find; `none` where an
-- action cannot be taken.
unfoldable pub perform_calls : List Call → Core → Option View → Option View
perform_calls calls core none = none
perform_calls [] core (some v) = some v
perform_calls (c ∷ calls) core (some v) =
    let (out, next) = call c core in perform_calls calls next (perform_from out (some (heard c v)))

-- The state after the calls.
unfoldable pub after : List Call → Core → Core
after [] core = core
after (c ∷ calls) core = after calls (call c core).1

perform_calls-after :
    (calls : List Call) (core : Core)
    → perform_calls calls core (some (view_of core)) ≡ some (view_of (after calls core))
unfolding perform_calls after
perform_calls-after [] core = refl
perform_calls-after (c ∷ calls) core =
    ap (perform_calls calls (call c core).1) (call-Follows c core)
    ∙ perform_calls-after calls (call c core).1

-- No highlight is left where nothing is said or held.
abbrev Lit : Core → Type 0
Lit core = is_live core.state ≡ false → core.highlight_active ≡ false

begin_at-Lit : (offset : ℕ) (acted : Acted) → Lit (begin_at offset acted).1
unfolding begin_at begin_from
begin_at-Lit offset acted h = ground (arith, h)

toggle_speech-Lit : (core : Core) → Lit core → Lit (toggle_speech core).1
unfolding toggle_speech toggle
toggle_speech-Lit core h = ground (arith, begin_at-Lit core.resume_offset ([], core))

restart-Lit : (core : Core) → Lit core → Lit (restart_at_current_word core).1
unfolding restart_at_current_word
restart-Lit core h =
    if-cases (λ (a : Acted). Lit a.1) (core.enabled && is_speaking core.state)
      (λ _.
        begin_at-Lit core.resume_offset (clear_missing (rect_containing core.resume_offset core)))
      (λ _. h)

will_speak_byte-Lit : (offset : ℕ) (core : Core) → Lit core → Lit (will_speak_byte offset core).1
unfolding will_speak_byte
will_speak_byte-Lit offset core h =
    let (r, c, e) = rect_containing-OnlyCursor offset core in rw e (ground (arith, h))

tap_word-Lit : (core : Core) (r : Option Rect) → Lit core → Lit (tap_word core r).1
unfolding tap_word
tap_word-Lit core none h = h
tap_word-Lit core (some r) h =
    if-cases (λ (a : Acted). Lit a.1) (is_live core.state && same_word r core) (λ _. ground arith)
      (λ _. begin_at-Lit r.byte_offset (stop_live core, core))

tap_at_logical-Lit : (x y : ℤ) (core : Core) → Lit core → Lit (tap_at_logical x y core).1
unfolding tap_at_logical
tap_at_logical-Lit x y core h =
    if-cases (λ (a : Acted). Lit a.1)
      (core.enabled && not (is_empty core.rects) && not (is_awaiting core.state))
      (λ _. tap_word-Lit core (tapped x y core.rects) h) (λ _. h)

call-Lit : (c : Call) (core : Core) → Lit core → Lit (call c core).1
unfolding call set_enabled page_arrived utterance_finished utterance_canceled page_timeout
call-Lit (enable on) core h = ground (arith, h)
call-Lit (page p) core h = ground (arith, h)
call-Lit finished core h = ground (arith, h)
call-Lit canceled core h = ground (arith, h)
call-Lit timeout core h = ground (arith, h)
call-Lit toggled core h = toggle_speech-Lit core h
call-Lit restart core h = restart-Lit core h
call-Lit (will_speak offset) core h = will_speak_byte-Lit offset core h
call-Lit (tap x y) core h = tap_at_logical-Lit x y core h

after-Lit : (calls : List Call) (core : Core) → Lit core → Lit (after calls core)
unfolding after
after-Lit [] core h = h
after-Lit (c ∷ calls) core h = after-Lit calls (call c core).1 (call-Lit c core h)

-- The speech engine and the highlight can take every action in the order in which any calls ask for
-- them, and stand as the state says after them; and nothing is highlighted while nothing is said or held.
pub perform_calls-initial :
    (calls : List Call)
    → (perform_calls calls initial_core (some (silent, none))
        ≡ some (view_of (after calls initial_core)))
      × ((view_of (after calls initial_core)).0 ≡ silent
          → (view_of (after calls initial_core)).1 ≡ none)
perform_calls-initial calls =
    let lit = after-Lit calls initial_core (λ _. refl) in
    (perform_calls-after calls initial_core, λ h. ground (arith, lit, h))
