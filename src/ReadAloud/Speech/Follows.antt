-- ===== src/ReadAloud/Speech/Follows.antt =====
-- Each call of ios/ReadAloudCore.cpp against the speech engine and the highlight.
use crosspoint_simulator.Prelude.{
  ℕ, Bool, false, not, ◌&&◌, List, [], ◌∷◌, ◌++◌, Option, none, some, ◌≡◌, ◌∙◌, refl, ap, arith,
  ltb, if◌then◌else◌, if-cases, is_empty, ℤ, drop,
}
use crosspoint_simulator.ReadAloud.{Rect, Page}
use crosspoint_simulator.ReadAloud.Speech.{
  Action, start_utterance, stop_utterance, clear_highlight, set_highlight, State, off, speaking,
  paused, awaiting_next_page, Core, is_live, is_speaking, is_awaiting, stop_live, to_state,
  set_enabled, page_arrived, utterance_finished, utterance_canceled, page_timeout, found,
  rect_containing, same_word, will_speak_byte, highlight_found, begin_from, begin_at, toggle,
  toggle_speech, clear_missing, restart_at_current_word, tapped, tap_word, tap_at_logical, Call,
  enable, page, finished, canceled, timeout, toggled, restart, will_speak, tap, call, start_cursor,
  scan,
}
use crosspoint_simulator.ReadAloud.Speech.Voice.{
  View, perform_from, heard, view_of, Follows, perform-append, silent, talking,
}

set_enabled-Follows : (on : Bool) (core : Core) → Follows (view_of core) (set_enabled on core)
unfolding set_enabled
set_enabled-Follows on core = ground arith

page_arrived-Follows : (p : Page) (core : Core) → Follows (view_of core) (page_arrived p core)
unfolding page_arrived
page_arrived-Follows p core = ground arith

finished-Follows : (core : Core) → Follows (heard finished (view_of core)) (utterance_finished core)
unfolding utterance_finished
finished-Follows core = ground arith

canceled-Follows : (core : Core) → Follows (heard canceled (view_of core)) (utterance_canceled core)
unfolding utterance_canceled
canceled-Follows core = ground arith

timeout-Follows : (core : Core) → Follows (view_of core) (page_timeout core)
unfolding page_timeout
timeout-Follows core = ground arith

-- Only the cursor changes.
abbrev pub OnlyCursor : Core → Option Rect × Core → Type 0
OnlyCursor core result =
    (r : Option Rect) × (c : ℕ) × (result ≡ (r, record core { scan_cursor = c }))

found-OnlyCursor :
    (core : Core) (c : ℕ) (at : Option (ℕ × Rect))
    → OnlyCursor core (found (record core { scan_cursor = c }) at)
found-OnlyCursor core c none = (none, c, refl)
found-OnlyCursor core c (some (i, r)) = (some r, i, refl)

pub rect_containing-OnlyCursor :
    (offset : ℕ) (core : Core) → OnlyCursor core (rect_containing offset core)
unfolding rect_containing
rect_containing-OnlyCursor offset core =
    let cursor = start_cursor core.scan_cursor (drop core.scan_cursor core.rects) offset in
    if-cases (OnlyCursor core) (is_empty core.rects) (λ _. (none, core.scan_cursor, refl))
      (λ _. found-OnlyCursor core cursor (scan cursor (drop cursor core.rects) offset))

started :
    (offset : ℕ) (out : List Action) (v : View) (lit : Option (ℕ × ℕ))
    → perform_from out (some v) ≡ some (silent, lit)
    → perform_from (out ++ start_utterance offset ∷ []) (some v) ≡ some (talking, lit)
started offset out v lit h =
    perform-append out (start_utterance offset ∷ []) (some v)
    ∙ ap (perform_from (start_utterance offset ∷ [])) h

highlight_found-Follows :
    (offset : ℕ) (r : Option Rect) (out : List Action) (v : View) (core : Core)
    → perform_from out (some v) ≡ some (silent, (view_of core).1)
    → Follows v (to_state speaking (highlight_found (out ++ start_utterance offset ∷ []) (r, core)))
highlight_found-Follows offset none out v core h = started offset out v (view_of core).1 h
highlight_found-Follows offset (some r) out v core h =
    let word = set_highlight r.byte_offset r.byte_len ∷ [] in
    perform-append (out ++ start_utterance offset ∷ []) word (some v)
    ∙ ap (perform_from word) (started offset out v (view_of core).1 h)

begin_from-Follows :
    (offset : ℕ) (out : List Action) (v : View) (core : Core)
    → perform_from out (some v) ≡ some (silent, (view_of core).1)
    → Follows v (begin_from offset (out, core))
unfolding begin_from
begin_from-Follows offset out v core h =
    let (r, c, e) =
      rect_containing-OnlyCursor offset (record core { resume_offset = offset; scan_cursor = 0 }) in
    rw e (
      highlight_found-Follows offset r out v
        (record core { resume_offset = offset; scan_cursor = c }) h)

begin_at-Follows :
    (offset : ℕ) (out : List Action) (v : View) (core : Core)
    → perform_from out (some v) ≡ some (silent, (view_of core).1)
    → Follows v (begin_at offset (out, core))
unfolding begin_at
begin_at-Follows offset out v core h =
    begin_from-Follows (if ltb offset core.text_bytes then offset else 0) out v core h

toggle-Follows :
    (state : State) (core : Core) → core.state ≡ state → Follows (view_of core) (toggle state core)
unfolding toggle
toggle-Follows speaking core e = ground (arith, e)
toggle-Follows paused core e = ground (arith, e)
toggle-Follows awaiting_next_page core e = refl
toggle-Follows off core e =
    if-cases (Follows (view_of core)) (ltb 0 core.text_bytes)
      (λ _. begin_at-Follows core.resume_offset [] (view_of core) core (ground (arith, e)))
      (λ _. refl)

toggle_speech-Follows : (core : Core) → Follows (view_of core) (toggle_speech core)
unfolding toggle_speech
toggle_speech-Follows core =
    if-cases (Follows (view_of core)) core.enabled (λ _. toggle-Follows core.state core refl)
      (λ _. refl)

will_speak_byte-Follows :
    (offset : ℕ) (core : Core) → Follows (view_of core) (will_speak_byte offset core)
unfolding will_speak_byte
will_speak_byte-Follows offset core =
    let (r, c, e) = rect_containing-OnlyCursor offset core in rw e (ground arith)

tap_word-Follows :
    (core : Core) (r : Option Rect)
    → is_awaiting core.state ≡ false
    → Follows (view_of core) (tap_word core r)
unfolding tap_word
tap_word-Follows core none h = refl
tap_word-Follows core (some r) h =
    if-cases (Follows (view_of core)) (is_live core.state && same_word r core)
      (λ e. ground (arith, e))
      (λ _. begin_at-Follows r.byte_offset (stop_live core) (view_of core) core (ground arith))

tap_at_logical-Follows : (x y : ℤ) (core : Core) → Follows (view_of core) (tap_at_logical x y core)
unfolding tap_at_logical
tap_at_logical-Follows x y core =
    if-cases (Follows (view_of core))
      (core.enabled && not (is_empty core.rects) && not (is_awaiting core.state))
      (λ e. tap_word-Follows core (tapped x y core.rects) (ground (arith, e))) (λ _. refl)

clear_missing-begin_at :
    (offset c : ℕ) (r : Option Rect) (core : Core)
    → core.state ≡ speaking
    → Follows (view_of core) (begin_at offset (clear_missing (r, record core { scan_cursor = c })))
clear_missing-begin_at offset c (some r) core h =
    begin_at-Follows offset (stop_utterance ∷ []) (view_of core) (record core { scan_cursor = c })
      (ground (arith, h))
clear_missing-begin_at offset c none core h =
    if-cases (λ a. Follows (view_of core) (begin_at offset a)) core.highlight_active
      (λ e.
        begin_at-Follows offset (stop_utterance ∷ clear_highlight ∷ []) (view_of core)
          (record core { scan_cursor = c; highlight_active = false }) (ground (arith, h, e)))
      (λ e.
        begin_at-Follows offset (stop_utterance ∷ []) (view_of core)
          (record core { scan_cursor = c }) (ground (arith, h, e)))

restart-Follows : (core : Core) → Follows (view_of core) (restart_at_current_word core)
unfolding restart_at_current_word
restart-Follows core =
    if-cases (Follows (view_of core)) (core.enabled && is_speaking core.state)
      (λ h.
        let (r, c, e) = rect_containing-OnlyCursor core.resume_offset core in
        rw e (clear_missing-begin_at core.resume_offset c r core (ground (arith, h))))
      (λ _. refl)

pub call-Follows : (c : Call) (core : Core) → Follows (heard c (view_of core)) (call c core)
unfolding call
call-Follows (enable on) core = set_enabled-Follows on core
call-Follows (page p) core = page_arrived-Follows p core
call-Follows finished core = finished-Follows core
call-Follows canceled core = canceled-Follows core
call-Follows timeout core = timeout-Follows core
call-Follows toggled core = toggle_speech-Follows core
call-Follows restart core = restart-Follows core
call-Follows (will_speak offset) core = will_speak_byte-Follows offset core
call-Follows (tap x y) core = tap_at_logical-Follows x y core
