-- ===== src/ReadAloud.antt =====
-- `ReadAloudChannel` of src/ReadAloudChannel.h: the latest page on its way from the firmware to one
-- consumer that drains and to any number of readers that peek. The mutex makes every operation one
-- step.
pub mod Inbox
pub mod Speech
mod Tests
use crosspoint_simulator.Prelude.{
  ℕ, ◌+◌, ◌%◌, ◌^◌, Bool, true, false, ◌||◌, not, ◌&&◌, List, [], Option, none, some, length, ltb,
  ◌==◌, is_empty, if◌then◌else◌, Bytes,
}

-- `ReadAloudWordRect`.
pub record Rect : Type 0 where
  pub x : ℕ
  pub y : ℕ
  pub w : ℕ
  pub h : ℕ
  pub byte_offset : ℕ
  pub byte_len : ℕ

-- `ReadAloudPage`.
pub record Page : Type 0 where
  pub utf8 : Bytes
  pub rects : List Rect
  pub generation : ℕ
  pub cleared : Bool
  pub published_at_ms : ℕ

abbrev pub no_page : Page
no_page = record { utf8 = []; rects = []; generation = 0; cleared = false; published_at_ms = 0 }

pub record Channel : Type 0 where
  pub wanted_flag : Bool
  pub peeker_flag : Bool
  pub page : Page
  pub has_new : Bool
  pub next_generation : ℕ

abbrev pub initial : Channel
initial = record {
  wanted_flag = false;
  peeker_flag = false;
  page = no_page;
  has_new = false;
  next_generation = 1;
}

unfoldable pub set_wanted : Channel → Bool → Channel
set_wanted c w = record c { wanted_flag = w }

unfoldable pub set_peeker_wanted : Channel → Bool → Channel
set_peeker_wanted c w = record c { peeker_flag = w }

unfoldable pub wanted : Channel → Bool
wanted c = c.wanted_flag || c.peeker_flag

abbrev pub bytes_of : Option Bytes → Bytes
bytes_of none = []
bytes_of (some utf8) = utf8

-- The rects of a page that is no clear; a null pointer is the empty list.
abbrev pub rects_of : Option Bytes → List Rect → List Rect
rects_of none rects = []
rects_of (some utf8) rects = rects

abbrev pub is_none : Option Bytes → Bool
is_none none = true
is_none (some utf8) = false

-- `none` is the null pointer that publishes a clear.
unfoldable pub publish : Channel → Option Bytes → List Rect → ℕ → Channel
publish c utf8 rects now = record c {
  page = record {
    utf8 = bytes_of utf8;
    rects = rects_of utf8 rects;
    generation = c.next_generation;
    cleared = is_none utf8;
    published_at_ms = now;
  };
  has_new = true;
  next_generation = (c.next_generation + 1) % 2 ^ 32;
}

unfoldable pub reset_for_reboot : Channel → Channel
reset_for_reboot c = record c { page = no_page; has_new = false }

unfoldable pub consume : Channel → Channel × Option Page
consume c = if not c.has_new then (c, none) else (record c { has_new = false }, some c.page)

-- The last generation that the reader saw, and the page when it is a newer one.
unfoldable pub peek : Channel → ℕ → ℕ × Option Page
peek c last_seen =
    if c.page.generation == 0 || c.page.generation == last_seen
    then (last_seen, none)
    else (c.page.generation, some c.page)
