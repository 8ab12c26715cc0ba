-- ===== src/Http/Multipart.antt =====
-- `headerParam` and `parseMultipart` of src/WebServer.cpp. A position in the body is the rest of the body
-- from it on.
pub mod Parts
pub mod Fields
use crosspoint_simulator.Prelude.{
  ℕ, zero, suc, ◌+◌, ◌-◌, Bool, true, false, not, ◌&&◌, List, [], ◌∷◌, ◌++◌, Option, none, some,
  leb, ◌==◌, if◌then◌else◌, length, take, drop, is_empty, Bytes, ◌>>=◌, codes, find, starts_with,
}
use crosspoint_simulator.WebSocket.Handshake.{blank_line, crlf}

pub record Part : Type 0 where
  pub name : Bytes
  pub filename : Bytes
  pub bytes : Bytes

abbrev pub up_to : Bytes → Option ℕ → Bytes
up_to value none = []
up_to value (some end) = take end value

abbrev pub value_at : Bytes → ℕ → Option ℕ → Bytes
value_at header past none = []
value_at header past (some start) =
    let value = drop (start + past) header in up_to value (find (codes "\"") value)

-- The empty string where the key is not there or its value does not end.
unfoldable pub header_param : Bytes → Bytes → Bytes
header_param header key =
    let needle = key ++ codes "=\"" in value_at header (length needle) (find needle header)

abbrev pub or_all : Bytes → Option ℕ → Bytes
or_all text none = text
or_all text (some end) = take end text

-- A quoted boundary ends at its quote, another at a semicolon.
abbrev pub unquoted : Bytes → Bytes
unquoted [] = []
unquoted (c ∷ cs) =
    if c == b'"'
    then or_all cs (find (codes "\"") cs)
    else or_all (c ∷ cs) (find (codes ";") (c ∷ cs))

abbrev pub skip_line_end : Bytes → Bytes
skip_line_end rest = if starts_with crlf rest then drop 2 rest else rest

-- The data in front of a boundary that is at `next`, without the line end in front of it.
abbrev pub data_before : ℕ → Bytes → Bytes
data_before next content =
    if leb 2 next && starts_with crlf (drop (next - 2) content)
    then take (next - 2) content
    else take next content

abbrev pub add_part : Bytes → Bytes → List Part → List Part
add_part headers bytes parts =
    let name = header_param headers (codes "name") in
    if is_empty name
    then parts
    else record { name = name; filename = header_param headers (codes "filename"); bytes = bytes }
      ∷ parts

-- A part with these headers and what is behind them; `later` makes the parts of what is behind the
-- next boundary.
abbrev pub part_at : (Bytes → List Part) → Bytes → Bytes → Bytes → Option ℕ → List Part
part_at later boundary headers content none = []
part_at later boundary headers content (some next) =
    add_part headers (data_before next content) (later (drop (length boundary) (drop next content)))

abbrev pub headed : (Bytes → List Part) → Bytes → Bytes → Option ℕ → List Part
headed later boundary rest none = []
headed later boundary rest (some headers_end) =
    let content = drop (headers_end + 4) rest in
    part_at later boundary (take headers_end rest) content (find boundary content)

-- The loop behind a boundary. A round takes the headers' end, four bytes, so more fuel than there are
-- bytes is enough.
unfoldable pub parts_from : ℕ → Bytes → Bytes → List Part
unfolding header_param
parts_from zero boundary rest = []
parts_from (suc fuel) boundary rest =
    let part = skip_line_end rest in
    let found = headed (parts_from fuel boundary) boundary part (find blank_line part) in
    if starts_with (codes "--") rest then [] else found

abbrev pub first_boundary : Bytes → Bytes → Option ℕ → List Part
first_boundary boundary body none = []
first_boundary boundary body (some start) =
    parts_from (length body + 1) boundary (drop (start + length boundary) body)

abbrev pub with_boundary : Bytes → Bytes → List Part
with_boundary boundary body = first_boundary boundary body (find boundary body)

abbrev pub boundary_at : Bytes → Bytes → Option ℕ → List Part
boundary_at content_type body none = []
boundary_at content_type body (some pos) =
    with_boundary (codes "--" ++ unquoted (drop (pos + 9) content_type)) body

unfoldable pub parse_multipart : Bytes → Bytes → List Part
unfolding parts_from
parse_multipart content_type body =
    boundary_at content_type body (find (codes "boundary=") content_type)
