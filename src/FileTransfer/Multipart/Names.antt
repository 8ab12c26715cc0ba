-- ===== src/FileTransfer/Multipart/Names.antt =====
-- The names of the files that `parseMultipartFile` of src/CrossPointWebServer.cpp finds.
use crosspoint_simulator.Prelude.{
  ℕ, zero, suc, ◌+◌, ◌++◌, Option, none, some, length, take, drop, is_empty, Bytes, ◌>>=◌, codes,
  find, starts_with, if-cases,
}
use crosspoint_simulator.WebSocket.Handshake.{Headers, blank_line, crlf}
use crosspoint_simulator.FileTransfer.Path.Segments.{NoSlash}
use crosspoint_simulator.FileTransfer.Path.Allowed.{basename_of-NoSlash}
use crosspoint_simulator.FileTransfer.Multipart.{
  multipart_boundary, file_marker, quote, file_of, skip_line_end, chosen, part_of, find_file,
  parse_multipart_file,
}

-- A file, if there is one, whose name has no slash.
abbrev pub NamesFile : Option (Bytes × Bytes) → Type 0
NamesFile none = Unit
NamesFile (some (name, bytes)) = NoSlash name

bind-NamesFile :
    {A : Type 0} (o : Option A) (k : A → Option (Bytes × Bytes))
    → ((a : A) → NamesFile (k a))
    → NamesFile (o >>= k)
bind-NamesFile none k h = tt
bind-NamesFile (some a) k h = h a

file_of-NamesFile : (value bytes : Bytes) → NamesFile (file_of value bytes)
unfolding file_of
file_of-NamesFile value bytes =
    bind-NamesFile (find quote value) _ λ end. basename_of-NoSlash (take end value)

chosen-NamesFile :
    (next : Bytes → Option (Bytes × Bytes)) (lines content after : Bytes) (o : Option ℕ)
    → ((bs : Bytes) → NamesFile (next bs))
    → NamesFile (chosen next lines content after o)
chosen-NamesFile next lines content after none h = h after
chosen-NamesFile next lines content after (some pos) h =
    file_of-NamesFile (drop (pos + 10) lines) content

part_of-NamesFile :
    (next : Bytes → Option (Bytes × Bytes)) (boundary rest : Bytes)
    → ((bs : Bytes) → NamesFile (next bs))
    → NamesFile (part_of next boundary rest)
part_of-NamesFile next boundary rest h = bind-NamesFile (find blank_line rest) _ λ e.
    bind-NamesFile (find (crlf ++ boundary) (drop (e + 4) rest)) _ λ n.
      chosen-NamesFile next (take e rest) (take n (drop (e + 4) rest)) (drop n (drop (e + 4) rest))
        (find file_marker (take e rest)) h

find_file-NamesFile : (fuel : ℕ) (boundary rest : Bytes) → NamesFile (find_file fuel boundary rest)
unfolding find_file
find_file-NamesFile zero boundary rest = tt
find_file-NamesFile (suc fuel) boundary rest = bind-NamesFile (find boundary rest) _ λ start.
    let part = drop (start + length boundary) rest in
    if-cases NamesFile (starts_with (codes "--") part) (λ _. tt)
      λ _.
        part_of-NamesFile (find_file fuel boundary) boundary (skip_line_end part)
          (λ bs. find_file-NamesFile fuel boundary bs)

pub parse_multipart_file-NamesFile :
    (hs : Headers) (body : Bytes) → NamesFile (parse_multipart_file hs body)
unfolding parse_multipart_file
parse_multipart_file-NamesFile hs body =
    if-cases NamesFile (is_empty (multipart_boundary hs)) (λ _. tt)
      λ _. find_file-NamesFile (length body + 1) (multipart_boundary hs) body
