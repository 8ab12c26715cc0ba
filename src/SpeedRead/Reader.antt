-- ===== src/SpeedRead/Reader.antt =====
-- `Reader` of src/SpeedRead.h: which word is up, when it changes, and when the next page is asked
-- for. Times are `uint64_t` milliseconds.
pub mod Outcome
pub mod Order
pub mod Pace
pub mod Sentences
pub mod Controls
pub mod Pause
use crosspoint_simulator.Prelude.{
  ℕ, zero, suc, ◌+◌, ◌-◌, ◌%◌, ◌^◌, Bool, true, false, not, ◌&&◌, ◌||◌, List, [], Option, none,
  some, leb, ltb, ◌==◌, if◌then◌else◌, length, get_elem?, is_empty,
}
use crosspoint_simulator.SpeedRead.Text.{ends_sentence}
use crosspoint_simulator.SpeedRead.Duration.{Word, Timing, default_wpm, clamp_wpm}

abbrev pub empty_page_dwell_ms : ℕ
empty_page_dwell_ms = 1500

abbrev pub turn_timeout_ms : ℕ
turn_timeout_ms = 4000

pub record Event : Type 0 where
  pub changed : Bool
  pub request_turn : Bool

abbrev pub no_event : Event
no_event = record { changed = false; request_turn = false }

pub record Reader : Type 0 where
  pub words : List Word
  pub index : ℕ
  pub shown_at : ℕ
  pub arrived_at : ℕ
  pub turn_asked_at : ℕ
  pub wpm : ℕ
  pub paused : Bool
  pub awaiting_turn : Bool
  pub finished : Bool
  pub has_page : Bool

abbrev pub initial : Reader
initial = record {
  words = [];
  index = 0;
  shown_at = 0;
  arrived_at = 0;
  turn_asked_at = 0;
  wpm = default_wpm;
  paused = false;
  awaiting_turn = false;
  finished = false;
  has_page = false;
}

-- `now - then` on `uint64_t`.
unfoldable pub since : ℕ → ℕ → ℕ
since earlier now = (now + 2 ^ 64 - earlier) % 2 ^ 64

unfoldable pub set_wpm : Reader → ℕ → Reader
set_wpm r wpm = record r { wpm = clamp_wpm wpm }

unfoldable pub page_arrived : Reader → List Word → ℕ → Bool → Reader
page_arrived r words now same_page =
    if same_page && length words == length r.words then record r { words = words } else record r {
      words = words;
      index = 0;
      shown_at = now;
      arrived_at = now;
      awaiting_turn = false;
      finished = false;
      has_page = true;
    }

unfoldable pub clear : Reader → Reader
clear r = record r {
  words = [];
  has_page = false;
  awaiting_turn = false;
  finished = false;
  index = 0;
}

unfoldable pub ask_turn : Reader → ℕ → Reader × Event
ask_turn r now = (
  record r { awaiting_turn = true; turn_asked_at = now },
  record { changed = false; request_turn = true },
)

module _ (timing : Timing) where
  open timing use {due, reached, whole}

  -- A word that has had its time gives way to the next, or the page to the next page. The next
  -- word's time starts when this one was due, or now after a stall of a word or more.
  unfoldable pub advance : Reader → Word → ℕ → Reader × Event
  unfolding since ask_turn
  advance r word now =
      let d = due word r.wpm in
      let due_at = (r.shown_at + whole d) % 2 ^ 64 in
      if reached (since r.shown_at now) d
      then if ltb (r.index + 1) (length r.words)
        then (
          record r {
            index = r.index + 1;
            shown_at = if ltb (since due_at now) (whole d) then due_at else now;
          },
          record { changed = true; request_turn = false },
        )
        else ask_turn r now
      else (r, no_event)

  -- Past the end of `words_` the source reads out of bounds; `none` stands for that.
  unfoldable pub show : Reader → Option Word → ℕ → Reader × Event
  unfolding advance
  show r none now = (r, no_event)
  show r (some word) now = advance r word now

  unfoldable pub step : Reader → ℕ → Reader × Event
  unfolding show
  step r now =
      if not r.has_page || (r.paused || r.finished)
      then (r, no_event)
      else if r.awaiting_turn
      then if leb turn_timeout_ms (since r.turn_asked_at now)
        then (record r { finished = true }, record { changed = true; request_turn = false })
        else (r, no_event)
      else if is_empty r.words
      then if leb empty_page_dwell_ms (since r.arrived_at now)
        then ask_turn r now
        else (r, no_event)
      else show r (get_elem? r.words r.index) now

unfoldable pub toggle_pause : Reader → ℕ → Reader
toggle_pause r now =
    if r.paused
    then record r {
      paused = false;
      shown_at = now;
      arrived_at = now;
      turn_asked_at = now;
      finished = false;
      awaiting_turn = if r.finished then false else r.awaiting_turn;
    }
    else record r { paused = true }

unfoldable pub set_paused : Reader → Bool → ℕ → Reader
unfolding toggle_pause
set_paused r true now = if r.paused then r else toggle_pause r now
set_paused r false now = if r.paused then toggle_pause r now else r

unfoldable pub back_word : Reader → ℕ → Reader
back_word r now = record r {
  index = if ltb 0 r.index then r.index - 1 else r.index;
  shown_at = now;
  awaiting_turn = false;
}

abbrev ends_at : Option Word → Bool
ends_at none = false
ends_at (some w) = ends_sentence w.text

-- `while (i > 0 && !endsSentence(words_[i - 1].text)) i--;`
unfoldable pub start_of : List Word → ℕ → ℕ
unfolding ends_sentence
start_of words zero = zero
start_of words (suc i) =
    let earlier = start_of words i in if ends_at (get_elem? words i) then suc i else earlier

unfoldable pub back_sentence : Reader → ℕ → Reader
unfolding start_of
back_sentence r now =
    let s = start_of r.words r.index in
    if is_empty r.words then r else record r {
      index = if s == r.index && ltb 0 r.index then start_of r.words (r.index - 1) else s;
      shown_at = now;
      awaiting_turn = false;
    }

unfoldable pub current : Reader → Option Word
current r = get_elem? r.words r.index
