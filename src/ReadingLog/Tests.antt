-- ===== src/ReadingLog/Tests.antt =====
-- Runs of the log of src/ReadingLog.h on small inputs.
use crosspoint_simulator.Prelude.{
  pos, negsuc, ℕ, ◌≤◌, ◌≡◌, refl, Bool, true, false, List, [], ◌∷◌, ◌++◌, map, flatten, none, some,
  arith, length, Bytes, ◌⊎◌, codes, ◌==◌, if◌then◌else◌,
}
use crosspoint_simulator.Http.Response.{show_number, digits}
use crosspoint_simulator.ReadingLog.Line.{
  ReadingPageSample, HostSnapshot, fnv_bytes, hash, config_id, hex_text, escaped, add_u, add_i,
  add_s, add_hex, escaped_byte, fnv_str, fnv_u32,
}
use crosspoint_simulator.ReadingLog.Publish.{
  opening, page_line, event_line, Call, publish_page, publish_boot, publish, publish_all, Line,
  text, event, page,
}
use crosspoint_simulator.ReadingLog.Lines.{lines_from, printed, run-lines}
use crosspoint_simulator.ReadingLog.Publish.Explained.{Explained, publish_all-Explained}
use crosspoint_simulator.ReadingLog.Store.{
  rotate_bytes, rotate, Files, text_of, append, run, remove, shift, rename,
}
use crosspoint_simulator.ReadingLog.Store.Behind.{FullUpTo}
use crosspoint_simulator.ReadingLog.Store.History.{line_text, history}
use crosspoint_simulator.ReadingLog.Store.Runs.{logged, no_files, run-history}

abbrev some_calls : List (Bytes × Bool)
some_calls = (97 ∷ 98 ∷ [], true) ∷ (99 ∷ [], false) ∷ ([], true) ∷ []

run_lem : history 12 (run some_calls no_files) ≡ 97 ∷ 98 ∷ 10 ∷ 10 ∷ []
unfolding run append rotate
run_lem = refl

abbrev two_files : Files
two_files i = if i == 0 then some (1 ∷ []) else if i == 11 then some (2 ∷ []) else none

rotate-two_files : rotate two_files 1 ≡ some (1 ∷ [])
unfolding rotate shift rename remove
rotate-two_files = refl

rotate-oldest : rotate two_files 11 ≡ none
unfolding rotate shift rename remove
rotate-oldest = refl

run-history_example :
    (lost : List Bytes) × (kept : List Bytes) × (lost ++ kept ≡ logged some_calls)
    × (history 12 (run some_calls no_files) ≡ flatten (map line_text kept))
    × ((i : ℕ) → length (text_of (run some_calls no_files i)) ≤ rotate_bytes)
    × (lost ≡ [] ⊎ FullUpTo 8 (run some_calls no_files) 11)
run-history_example =
    run-history 8 some_calls (omega arith) (omega arith, (omega arith, (omega arith, tt)))

abbrev page_one : ReadingPageSample
page_one = record {
  book_key = 0xab;
  spine_index = pos 2;
  page_in_spine = negsuc 0;
  format = codes "epub";
  words = 210;
  chars = 1200;
  lines = 24;
  font_family = codes "Literata";
  font_point_size = 12;
  font_size_slot = 1;
  line_spacing = 1;
  line_grid_enabled = 0;
  justify_threshold_chars = 20;
  ligatures_enabled = 1;
  ligatures_off = [];
  line_break_mode = 1;
  screen_margin = 5;
}

abbrev on_x4 : Bool → HostSnapshot
on_x4 dark = record {
  device = codes "X4";
  render_scale = 1;
  panel_w = 480;
  panel_h = 800;
  dark = dark;
  ink = 0;
  paper = 0xffffff;
  experiment = [];
  arm = [];
  arm_seed = 0;
}

page_line_lem :
    page_line page_one 7 (pos 1000) 50
    ≡ codes
        "{\"t\":\"page\",\"ts\":1000,\"ms\":50,\"cfg\":7,\"bk\":\"00000000000000ab\",\"fmt\":\"epub\",\"sp\":2,\"pg\":-1,\"w\":210,\"c\":1200,\"ln\":24}"
unfolding page_line opening add_u add_i add_s escaped escaped_byte hex_text show_number digits
page_line_lem = refl

event_line_lem :
    event_line (codes "sleep") (codes "a\"b") (pos 1) 2
    ≡ codes "{\"t\":\"evt\",\"ts\":1,\"ms\":2,\"k\":\"sleep\",\"why\":\"a\\\"b\",\"v\":1}"
unfolding event_line opening add_u add_i add_s escaped escaped_byte hex_text show_number digits
event_line_lem = refl

add_hex_lem : add_hex (codes "ink") 0xff00ab ≡ codes ",\"ink\":\"FF00AB\""
unfolding add_hex hex_text
add_hex_lem = refl

abbrev some_pages : List Call
some_pages =
    publish_boot (pos 1) 0
    ∷ publish_page page_one (on_x4 false) (pos 2) 10
    ∷ publish_page page_one (on_x4 true) (pos 3) 20
    ∷ publish_boot (pos 4) 0
    ∷ publish_page page_one (on_x4 true) (pos 5) 10
    ∷ []

publish_all-some_pages : length (publish_all 0 some_pages) ≡ 8
unfolding publish_all publish config_id hash fnv_bytes fnv_str fnv_u32
publish_all-some_pages = refl

publish_all-Explained_example : Explained none (publish_all 0 some_pages)
publish_all-Explained_example = publish_all-Explained some_pages

abbrev some_lines : List (Line × Bool)
some_lines =
    (event (codes "boot") [] (pos 1) 0, true)
    ∷ (page page_one 7 (pos 1000) 50, false)
    ∷ (event (codes "sleep") (codes "a\nb") (pos 2) 9, true)
    ∷ []

run-lines_example :
    (lost : List Bytes) × (kept : List Bytes) × (lost ++ kept ≡ logged (printed some_lines))
    × (lines_from [] (history 12 (run (printed some_lines) no_files)) ≡ kept)
unfolding event_line page_line opening add_u add_i add_s escaped escaped_byte hex_text show_number
    digits text
run-lines_example =
    run-lines 200 some_lines (omega arith) (omega arith, (omega arith, (omega arith, tt)))
