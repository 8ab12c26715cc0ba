-- ===== src/FileTransfer/Multipart.antt =====
-- `multipartBoundary` and `parseMultipartFile` of src/CrossPointWebServer.cpp. A position in the body
-- is the rest of the body from it on.
pub mod Form
pub mod Names
use crosspoint_simulator.Prelude.{
  ℕ, zero, suc, ◌+◌, Bool, true, false, List, [], ◌∷◌, ◌++◌, Option, none, some, if◌then◌else◌,
  length, take, drop, is_empty, Bytes, ◌>>=◌, codes, find, starts_with,
}
use crosspoint_simulator.WebSocket.Handshake.{Headers, header, blank_line, crlf}
use crosspoint_simulator.FileTransfer.Path.{basename_of}

abbrev pub marker : Bytes
marker = codes "boundary="

abbrev pub boundary_behind : Bytes → Option ℕ → Bytes
boundary_behind value none = []
boundary_behind value (some pos) = codes "--" ++ drop (pos + length marker) value

abbrev pub boundary_in : Option Bytes → Bytes
boundary_in none = []
boundary_in (some value) = boundary_behind value (find marker value)

-- The empty string where there is none.
unfoldable pub multipart_boundary : Headers → Bytes
unfolding header
multipart_boundary hs = boundary_in (header (codes "content-type") hs)

abbrev pub file_marker : Bytes
file_marker = codes "filename=\""

abbrev pub quote : Bytes
quote = codes "\""

-- The file of a part with this value behind `filename="` and these bytes.
unfoldable pub file_of : Bytes → Bytes → Option (Bytes × Bytes)
unfolding basename_of
file_of value bytes = do end ← find quote value; some (basename_of (take end value), bytes)

-- `if (req.body.compare(partStart, 2, "\r\n") == 0) partStart += 2;`
abbrev pub skip_line_end : Bytes → Bytes
skip_line_end rest = if starts_with crlf rest then drop 2 rest else rest

-- The rounds of the loop behind a boundary: the part has a file when its headers have a file name,
-- else `next` is what the loop makes of the body from the end of its content on.
abbrev pub chosen :
    (Bytes → Option (Bytes × Bytes)) → Bytes → Bytes → Bytes → Option ℕ → Option (Bytes × Bytes)
chosen next part_headers content after none = next after
chosen next part_headers content after (some pos) = file_of (drop (pos + 10) part_headers) content

abbrev pub content_of :
    (Bytes → Option (Bytes × Bytes)) → Bytes → Bytes → Bytes → Option (Bytes × Bytes)
content_of next boundary part_headers content = do
  next_boundary ← find (crlf ++ boundary) content
  chosen next part_headers (take next_boundary content) (drop next_boundary content)
      (find file_marker part_headers)

abbrev pub part_of : (Bytes → Option (Bytes × Bytes)) → Bytes → Bytes → Option (Bytes × Bytes)
part_of next boundary rest = do
  header_end ← find blank_line rest
  content_of next boundary (take header_end rest) (drop (header_end + 4) rest)

-- Behind a boundary: two dashes end the form.
abbrev pub at_boundary : (Bytes → Option (Bytes × Bytes)) → Bytes → Bytes → Option (Bytes × Bytes)
at_boundary next boundary part =
    let found = part_of next boundary (skip_line_end part) in
    if starts_with (codes "--") part then none else found

-- The loop, from a place in the body on. A round takes the boundary, a byte or more, so more fuel
-- than the body has bytes is enough.
unfoldable pub find_file : ℕ → Bytes → Bytes → Option (Bytes × Bytes)
unfolding file_of
find_file zero boundary rest = none
find_file (suc fuel) boundary rest = do
  start ← find boundary rest
  at_boundary (find_file fuel boundary) boundary (drop (start + length boundary) rest)

-- The file name and the bytes of the first part with a file.
unfoldable pub parse_multipart_file : Headers → Bytes → Option (Bytes × Bytes)
unfolding multipart_boundary find_file
parse_multipart_file hs body =
    let boundary = multipart_boundary hs in
    if is_empty boundary then none else find_file (length body + 1) boundary body
