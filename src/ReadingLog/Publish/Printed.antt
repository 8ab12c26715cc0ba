-- ===== src/ReadingLog/Publish/Printed.antt =====
-- Control bytes in a line of the log of src/ReadingLog.h.
use crosspoint_simulator.Prelude.{ℤ, ℕ, ◌≡◌, true, Bytes, arith}
use crosspoint_simulator.ReadingLog.Line.{ReadingPageSample, HostSnapshot}
use crosspoint_simulator.ReadingLog.Line.Clean.{Clean, is_clean, is_clean-Clean, clean}
use crosspoint_simulator.ReadingLog.Publish.{
  opening, config_line, page_line, event_line, Line, config, page, event, text,
}

opening-is_clean : (kind : Bytes) (ts : ℤ) (ms : ℕ) → is_clean (opening kind ts ms) ≡ is_clean kind
unfolding opening
opening-is_clean kind ts ms = simp clean (ground arith)

event_line-is_clean :
    (kind why : Bytes) (ts : ℤ) (ms : ℕ) → is_clean (event_line kind why ts ms) ≡ true
unfolding event_line
event_line-is_clean kind why ts ms = simp (clean, opening-is_clean)

page_line-is_clean :
    (s : ReadingPageSample) (cfg : ℕ) (ts : ℤ) (ms : ℕ) → is_clean (page_line s cfg ts ms) ≡ true
unfolding page_line
page_line-is_clean s cfg ts ms = simp (clean, opening-is_clean)

config_line-is_clean :
    (s : ReadingPageSample) (h : HostSnapshot) (cfg : ℕ) (ts : ℤ) (ms : ℕ)
    → is_clean (config_line s h cfg ts ms) ≡ true
unfolding config_line
config_line-is_clean s h cfg ts ms = simp (clean, opening-is_clean)

pub text-Clean : (line : Line) → Clean (text line)
unfolding text
text-Clean (config s h cfg ts ms) =
    is_clean-Clean (config_line s h cfg ts ms) (config_line-is_clean s h cfg ts ms)
text-Clean (page s cfg ts ms) =
    is_clean-Clean (page_line s cfg ts ms) (page_line-is_clean s cfg ts ms)
text-Clean (event kind why ts ms) =
    is_clean-Clean (event_line kind why ts ms) (event_line-is_clean kind why ts ms)
