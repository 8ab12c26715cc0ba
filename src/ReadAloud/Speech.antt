-- ===== src/ReadAloud/Speech.antt =====
-- `ReadAloudCore` of ios/ReadAloudCore.h and ios/ReadAloudCore.cpp: what is said and highlighted of a
-- page. A call returns its actions and the new state.
pub mod Voice
pub mod Follows
pub mod Calls
pub mod Skips
pub mod Words
mod Tests
use crosspoint_simulator.Prelude.{
  ℕ, ◌+◌, ◌%◌, ◌^◌, Bool, true, false, ◌||◌, ◌&&◌, not, List, [], ◌∷◌, ◌++◌, Option, none, some,
  ltb, ◌==◌, if◌then◌else◌, length, drop, is_empty, Bytes, bytes_eq, ℤ, pos, minus, ltz,
}
use crosspoint_simulator.ReadAloud.{Rect, Page}

pub data Action : Type 0 where
  start_utterance : ℕ → Action
  stop_utterance pause_utterance resume_utterance turn_page_forward clear_highlight : Action
  set_highlight : ℕ → ℕ → Action

pub data State : Type 0 where
  off speaking paused awaiting_next_page : State

pub record Core : Type 0 where
  pub state : State
  pub enabled : Bool
  pub rects : List Rect
  pub text_bytes : ℕ
  pub scan_cursor : ℕ
  pub highlight_active : Bool
  pub highlight_offset : ℕ
  pub highlight_len : ℕ
  pub resume_offset : ℕ
  pub page_text : Bytes
  pub skipped_textless : ℕ

abbrev pub initial_core : Core
initial_core = record {
  state = off;
  enabled = false;
  rects = [];
  text_bytes = 0;
  scan_cursor = 0;
  highlight_active = false;
  highlight_offset = 0;
  highlight_len = 0;
  resume_offset = 0;
  page_text = [];
  skipped_textless = 0;
}

abbrev pub max_consecutive_skips : ℕ
max_consecutive_skips = 12

abbrev pub tap_inflate_px : ℕ
tap_inflate_px = 2

abbrev pub is_live : State → Bool
is_live speaking = true
is_live paused = true
is_live _ = false

abbrev pub is_speaking : State → Bool
is_speaking speaking = true
is_speaking _ = false

abbrev pub is_awaiting : State → Bool
is_awaiting awaiting_next_page = true
is_awaiting _ = false

-- The actions of a call so far and the state.
abbrev pub Acted : Type 0
Acted = List Action × Core

-- `appendClear`: behind the actions so far.
abbrev pub append_clear : Acted → Acted
append_clear (out, core) =
    if core.highlight_active
    then (out ++ clear_highlight ∷ [], record core { highlight_active = false })
    else (out, core)

abbrev pub stop_live : Core → List Action
stop_live core = if is_live core.state then stop_utterance ∷ [] else []

abbrev pub to_state : State → Acted → Acted
to_state next (out, core) = (out, record core { state = next })

abbrev pub act : Action → Acted → Acted
act action (out, core) = (out ++ action ∷ [], core)

unfoldable pub set_enabled : Bool → Core → Acted
set_enabled on core =
    let next = record core { enabled = on } in
    if (on && core.enabled) || (not on && not core.enabled)
    then ([], core)
    else if on
    then ([], next)
    else to_state off (append_clear (stop_live core, next))

-- A page that is gone or without text.
abbrev pub forget_page : Acted → Acted
forget_page (out, core) =
    (out, record core { rects = []; text_bytes = 0; resume_offset = 0; page_text = [] })

abbrev pub skip_page : Acted → Acted
skip_page (out, core) =
    if ltb core.skipped_textless max_consecutive_skips
    then (
      out ++ turn_page_forward ∷ [],
      record core { skipped_textless = core.skipped_textless + 1; state = awaiting_next_page },
    )
    else (out, record core { state = off })

abbrev pub begin_page : Page → Acted → Acted
begin_page page (out, core) = (
  out ++ start_utterance 0 ∷ [],
  record core {
    skipped_textless = 0;
    page_text = page.utf8;
    rects = page.rects;
    text_bytes = length page.utf8 % 2 ^ 32;
    scan_cursor = 0;
    resume_offset = 0;
    state = speaking;
  },
)

abbrev pub clear_skips : Acted → Acted
clear_skips (out, core) = (out, record core { skipped_textless = 0; state = off })

unfoldable pub page_arrived : Page → Core → Acted
unfolding bytes_eq
page_arrived page core =
    if not core.enabled
    then ([], core)
    else if not page.cleared
        && not (is_empty page.utf8)
        && bytes_eq page.utf8 core.page_text
        && is_live core.state
    then ([], record core { rects = page.rects })
    else let stopped = append_clear (stop_live core, core) in
      if page.cleared
      then clear_skips (forget_page stopped)
      else if is_empty page.utf8
      then skip_page (forget_page stopped)
      else begin_page page stopped

unfoldable pub utterance_finished : Core → Acted
utterance_finished core =
    if is_speaking core.state
    then to_state awaiting_next_page (act turn_page_forward (append_clear ([], core)))
    else ([], core)

unfoldable pub utterance_canceled : Core → Acted
utterance_canceled core =
    if is_live core.state then to_state off (append_clear ([], core)) else ([], core)

unfoldable pub page_timeout : Core → Acted
page_timeout core =
    if is_awaiting core.state then to_state off (append_clear ([], core)) else ([], core)

abbrev pub rect_end : Rect → ℕ
rect_end r = (r.byte_offset + r.byte_len) % 2 ^ 32

-- The loop of `rectContaining`, from the rect with the index `i`.
unfoldable pub scan : ℕ → List Rect → ℕ → Option (ℕ × Rect)
scan i [] offset = none
scan i (r ∷ rs) offset =
    let rest = scan (i + 1) rs offset in
    if ltb offset r.byte_offset then none else if ltb offset (rect_end r) then some (i, r) else rest

-- The cursor with which the loop starts; the rect is the one that it is on.
abbrev pub start_cursor : ℕ → List Rect → ℕ → ℕ
start_cursor cursor [] offset = 0
start_cursor cursor (r ∷ rs) offset = if ltb offset r.byte_offset then 0 else cursor

abbrev pub found : Core → Option (ℕ × Rect) → Option Rect × Core
found core none = (none, core)
found core (some (i, r)) = (some r, record core { scan_cursor = i })

unfoldable pub rect_containing : ℕ → Core → Option Rect × Core
unfolding scan
rect_containing offset core =
    if is_empty core.rects
    then (none, core)
    else let cursor = start_cursor core.scan_cursor (drop core.scan_cursor core.rects) offset in
      found (record core { scan_cursor = cursor }) (scan cursor (drop cursor core.rects) offset)

abbrev pub same_word : Rect → Core → Bool
same_word r core =
    core.highlight_active
    && (core.highlight_offset == r.byte_offset)
    && (core.highlight_len == r.byte_len)

abbrev pub highlight : Rect → Acted → Acted
highlight r (out, core) = (
  out ++ set_highlight r.byte_offset r.byte_len ∷ [],
  record core {
    highlight_active = true;
    highlight_offset = r.byte_offset;
    highlight_len = r.byte_len;
  },
)

abbrev pub speak_word : Option Rect × Core → Acted
speak_word (none, core) = ([], core)
speak_word (some r, core) =
    let next = record core { resume_offset = r.byte_offset } in
    if same_word r next then ([], next) else highlight r ([], next)

unfoldable pub will_speak_byte : ℕ → Core → Acted
unfolding rect_containing
will_speak_byte offset core =
    if is_speaking core.state then speak_word (rect_containing offset core) else ([], core)

abbrev pub highlight_found : List Action → Option Rect × Core → Acted
highlight_found out (none, core) = (out, core)
highlight_found out (some r, core) = highlight r (out, core)

unfoldable pub begin_from : ℕ → Acted → Acted
unfolding rect_containing
begin_from offset (out, core) = to_state speaking (
    highlight_found (out ++ start_utterance offset ∷ [])
      (rect_containing offset (record core { resume_offset = offset; scan_cursor = 0 })))

-- `beginAt`: behind the actions so far.
unfoldable pub begin_at : ℕ → Acted → Acted
unfolding begin_from
begin_at offset (out, core) =
    begin_from (if ltb offset core.text_bytes then offset else 0) (out, core)

unfoldable pub toggle : State → Core → Acted
unfolding begin_at
toggle speaking core = to_state paused (pause_utterance ∷ [], core)
toggle paused core = to_state speaking (resume_utterance ∷ [], core)
toggle off core =
    if ltb 0 core.text_bytes then begin_at core.resume_offset ([], core) else ([], core)
toggle awaiting_next_page core = ([], core)

unfoldable pub toggle_speech : Core → Acted
unfolding toggle
toggle_speech core = if core.enabled then toggle core.state core else ([], core)

abbrev pub clear_missing : Option Rect × Core → Acted
clear_missing (none, core) = append_clear (stop_utterance ∷ [], core)
clear_missing (some r, core) = (stop_utterance ∷ [], core)

unfoldable pub restart_at_current_word : Core → Acted
unfolding begin_at rect_containing
restart_at_current_word core =
    if core.enabled && is_speaking core.state
    then begin_at core.resume_offset (clear_missing (rect_containing core.resume_offset core))
    else ([], core)

-- One coordinate of a tap inside a rect.
abbrev pub inside : ℤ → ℕ → ℕ → Bool
inside x low size =
    not (ltz x (minus low tap_inflate_px)) && ltz x (pos (low + size + tap_inflate_px))

-- The first rect that is tapped.
unfoldable pub tapped : ℤ → ℤ → List Rect → Option Rect
tapped x y [] = none
tapped x y (r ∷ rs) =
    let rest = tapped x y rs in if inside x r.x r.w && inside y r.y r.h then some r else rest

abbrev pub stop_at : ℕ → Acted → Acted
stop_at offset (out, core) = (out, record core { resume_offset = offset; state = off })

unfoldable pub tap_word : Core → Option Rect → Acted
unfolding begin_at
tap_word core none = ([], core)
tap_word core (some r) =
    if is_live core.state && same_word r core
    then stop_at r.byte_offset (append_clear (stop_utterance ∷ [], core))
    else begin_at r.byte_offset (stop_live core, core)

unfoldable pub tap_at_logical : ℤ → ℤ → Core → Acted
unfolding tap_word tapped
tap_at_logical x y core =
    if core.enabled && not (is_empty core.rects) && not (is_awaiting core.state)
    then tap_word core (tapped x y core.rects)
    else ([], core)

-- A call of `ReadAloudCore`.
pub data Call : Type 0 where
  enable : Bool → Call
  page : Page → Call
  finished canceled timeout toggled restart : Call
  will_speak : ℕ → Call
  tap : ℤ → ℤ → Call

unfoldable pub call : Call → Core → Acted
call (enable on) core = set_enabled on core
call (page p) core = page_arrived p core
call finished core = utterance_finished core
call canceled core = utterance_canceled core
call timeout core = page_timeout core
call toggled core = toggle_speech core
call restart core = restart_at_current_word core
call (will_speak offset) core = will_speak_byte offset core
call (tap x y) core = tap_at_logical x y core
