-- ===== src/ReadingLog/Publish.antt =====
-- The lines of the log of src/ReadingLog.h and what is written when a page is shown or the reader starts,
-- sleeps or leaves it. The time and the milliseconds since the start are arguments.
pub mod Explained
pub mod Printed
use crosspoint_simulator.Prelude.{
  ℤ, pos, negsuc, ℕ, List, [], ◌∷◌, ◌++◌, if◌then◌else◌, Bytes, codes, ◌%◌, ◌^◌, false,
}
use crosspoint_simulator.Http.Response.{show_number}
use crosspoint_simulator.ReadingLog.Line.{
  ReadingPageSample, HostSnapshot, config_id, needs_config_line, flag, hex_text, add_u, add_i,
  add_s, add_hex, key_text,
}

unfoldable pub opening : Bytes → ℤ → ℕ → Bytes
opening kind epoch_sec up_ms =
    codes "{\"t\":\""
    ++ kind
    ++ codes "\""
    ++ add_i (codes "ts") epoch_sec
    ++ add_u (codes "ms") up_ms

unfoldable pub config_line : ReadingPageSample → HostSnapshot → ℕ → ℤ → ℕ → Bytes
config_line s h cfg epoch_sec up_ms =
    opening (codes "cfg") epoch_sec up_ms
    ++ add_u (codes "id") cfg
    ++ add_s (codes "fam") s.font_family
    ++ add_u (codes "pt") s.font_point_size
    ++ add_u (codes "slot") s.font_size_slot
    ++ add_u (codes "ls") s.line_spacing
    ++ add_u (codes "grid") s.line_grid_enabled
    ++ add_u (codes "jt") s.justify_threshold_chars
    ++ add_u (codes "lig") s.ligatures_enabled
    ++ add_s (codes "ligoff") s.ligatures_off
    ++ add_u (codes "lb") s.line_break_mode
    ++ add_u (codes "marg") s.screen_margin
    ++ add_s (codes "dev") h.device
    ++ add_u (codes "scale") h.render_scale
    ++ add_u (codes "pw") h.panel_w
    ++ add_u (codes "ph") h.panel_h
    ++ add_u (codes "dark") (flag h.dark)
    ++ add_hex (codes "ink") h.ink
    ++ add_hex (codes "paper") h.paper
    ++ add_s (codes "exp") h.experiment
    ++ add_s (codes "arm") h.arm
    ++ add_u (codes "armseed") h.arm_seed
    ++ codes "}"

unfoldable pub page_line : ReadingPageSample → ℕ → ℤ → ℕ → Bytes
page_line s cfg epoch_sec up_ms =
    opening (codes "page") epoch_sec up_ms
    ++ add_u (codes "cfg") cfg
    ++ key_text (codes "bk")
    ++ codes "\""
    ++ hex_text false 16 s.book_key
    ++ codes "\""
    ++ add_s (codes "fmt") s.format
    ++ add_i (codes "sp") s.spine_index
    ++ add_i (codes "pg") s.page_in_spine
    ++ add_u (codes "w") s.words
    ++ add_u (codes "c") s.chars
    ++ add_u (codes "ln") s.lines
    ++ codes "}"

abbrev pub schema_version : ℕ
schema_version = 1

unfoldable pub event_line : Bytes → Bytes → ℤ → ℕ → Bytes
event_line kind why epoch_sec up_ms =
    opening (codes "evt") epoch_sec up_ms
    ++ add_s (codes "k") kind
    ++ add_s (codes "why") why
    ++ add_u (codes "v") schema_version
    ++ codes "}"

-- A line before it is text.
pub data Line : Type 0 where
  config : ReadingPageSample → HostSnapshot → ℕ → ℤ → ℕ → Line
  page : ReadingPageSample → ℕ → ℤ → ℕ → Line
  event : Bytes → Bytes → ℤ → ℕ → Line

unfoldable pub text : Line → Bytes
text (config s h cfg epoch_sec up_ms) = config_line s h cfg epoch_sec up_ms
text (page s cfg epoch_sec up_ms) = page_line s cfg epoch_sec up_ms
text (event kind why epoch_sec up_ms) = event_line kind why epoch_sec up_ms

-- A call of `publishPage`, `publishBoot`, `publishSleep` or `publishScreen`.
pub data Call : Type 0 where
  publish_page : ReadingPageSample → HostSnapshot → ℤ → ℕ → Call
  publish_boot : ℤ → ℕ → Call
  publish_sleep : Bytes → ℤ → ℕ → Call
  publish_screen : ℕ → ℤ → ℕ → Call

-- `publishPage` under the id of its configuration.
abbrev pub publish_under : ℕ → ℕ → ReadingPageSample → HostSnapshot → ℤ → ℕ → List Line × ℕ
publish_under cfg last_config s h ts ms =
    if needs_config_line last_config cfg
    then (config s h cfg ts ms ∷ page s cfg ts ms ∷ [], cfg)
    else (page s cfg ts ms ∷ [], last_config)

-- The lines that are appended, and the last configuration after them.
unfoldable pub publish : ℕ → Call → List Line × ℕ
unfolding config_id show_number
publish last_config (publish_page s h ts ms) = publish_under (config_id s h) last_config s h ts ms
publish last_config (publish_boot ts ms) = (event (codes "boot") [] ts ms ∷ [], 0)
publish last_config (publish_sleep why ts ms) = (event (codes "sleep") why ts ms ∷ [], last_config)
publish last_config (publish_screen screen_key ts ms) =
    (event (codes "screen") (show_number screen_key) ts ms ∷ [], last_config)

unfoldable pub publish_all : ℕ → List Call → List Line
unfolding publish
publish_all last_config [] = []
publish_all last_config (call ∷ calls) =
    let (lines, next) = publish last_config call in lines ++ publish_all next calls
