-- ===== src/FileTransfer/Change.antt =====
-- The routes of src/CrossPointWebServer.cpp that change files.
use crosspoint_simulator.Prelude.{
  ℕ, ◌+◌, Bool, true, false, not, ◌||◌, [], ◌∷◌, map, Option, none, some, ◌==◌, if◌then◌else◌,
  length, take, drop, Bytes, codes, bytes_eq, find, lower,
}
use crosspoint_simulator.WebSocket.Handshake.{Headers, header}
use crosspoint_simulator.Http.Response.{c_string}
use crosspoint_simulator.FileTransfer.Decode.{query_value, read_form_value}
use crosspoint_simulator.FileTransfer.Path.{
  root, normalize_path, is_protected_name, basename_of, parent_of, join_path,
}
use crosspoint_simulator.FileTransfer.Request.{Request}
use crosspoint_simulator.FileTransfer.Multipart.{parse_multipart_file}
use crosspoint_simulator.FileTransfer.Storage.{
  Opened, exists, open_at, make_dir, remove_file, remove_dir, rename_to, copy_to, write_to,
  begin_upload, end_upload, Program, ask,
}
use crosspoint_simulator.FileTransfer.Reply.{Reply}
use crosspoint_simulator.FileTransfer.Browse.{
  text, forbidden, not_found, is_refused, is_refused_entry,
}

abbrev pub has_written : Bytes → Option ℕ → Bool
has_written bytes none = false
has_written bytes (some n) = n == length bytes

abbrev pub outcome : Bool → ℕ → Bytes → Bytes → Program Reply
outcome ok status good bad = if ok then text status good else text 500 bad

unfoldable pub upload_to : Bytes → Bytes → Bytes → Program Reply
unfolding join_path
upload_to dir filename bytes = ask (begin_upload filename (length bytes)) λ _.
    ask (write_to (c_string (join_path dir filename)) bytes) λ written.
      ask (end_upload (has_written bytes written) filename (length bytes))
        λ _. outcome (has_written bytes written) 200 (codes "Uploaded") (codes "Upload failed")

abbrev pub upload_parsed : Request → Option (Bytes × Bytes) → Program Reply
upload_parsed req none = text 400 (codes "Missing file")
upload_parsed req (some (filename, bytes)) =
    let dir = normalize_path (query_value req.query (codes "path") root) in
    let stored = upload_to dir filename bytes in
    let placed =
      ask (exists (c_string dir))
        λ there. if there then stored else ask (make_dir (c_string dir)) λ _. stored in
    if is_protected_name filename
    then text 400 (codes "Missing file")
    else if is_refused dir
    then forbidden
    else placed

unfoldable pub upload : Request → Program Reply
unfolding parse_multipart_file upload_to is_refused query_value
upload req = upload_parsed req (parse_multipart_file req.headers req.body)

abbrev pub root_if_empty : Bytes → Bytes
root_if_empty [] = root
root_if_empty (c ∷ cs) = c ∷ cs

unfoldable pub mkdir : Request → Program Reply
unfolding is_refused read_form_value join_path
mkdir req =
    let parent = normalize_path (root_if_empty (read_form_value req.body (codes "path"))) in
    let name = basename_of (read_form_value req.body (codes "name")) in
    let made =
      ask (make_dir (c_string (join_path parent name)))
        λ ok. outcome ok 200 (codes "Folder created") (codes "Folder created") in
    if is_refused parent || is_protected_name name then forbidden else made

unfoldable pub rename : Request → Program Reply
unfolding is_refused_entry read_form_value join_path
rename req =
    let path = normalize_path (read_form_value req.body (codes "path")) in
    let name = basename_of (read_form_value req.body (codes "name")) in
    let dest = join_path (parent_of path) name in
    let renamed =
      ask (rename_to (c_string path) (c_string dest))
        λ ok. outcome ok 200 (codes "Renamed") (codes "Renamed") in
    if is_refused_entry path || is_protected_name name then forbidden else renamed

unfoldable pub move : Request → Program Reply
unfolding is_refused_entry read_form_value join_path
move req =
    let path = normalize_path (read_form_value req.body (codes "path")) in
    let dir = normalize_path (read_form_value req.body (codes "dest")) in
    let dest = join_path dir (basename_of path) in
    let moved =
      ask (rename_to (c_string path) (c_string dest))
        λ ok. outcome ok 200 (codes "Moved") (codes "Moved") in
    if is_refused_entry path || is_refused dir then forbidden else moved

-- `rmdir` for an open folder, `remove` for anything else.
abbrev pub removal : Bytes → (Bool → Program Reply) → Option Opened → Program Reply
removal path k none = ask (remove_file (c_string path)) k
removal path k (some o) =
    if o.directory then ask (remove_dir (c_string path)) k else ask (remove_file (c_string path)) k

unfoldable pub remove_at : Bytes → (Bool → Program Reply) → Program Reply
remove_at path k = ask (open_at (c_string path)) (removal path k)

unfoldable pub delete : Bytes → Program Reply
unfolding is_refused_entry remove_at
delete path =
    let removed = remove_at path λ ok. outcome ok 200 (codes "Deleted") (codes "Delete failed") in
    if is_refused_entry path then forbidden else removed

unfoldable pub put : Request → Program Reply
unfolding is_refused_entry
put req =
    let path = normalize_path req.path in
    let stored =
      ask (write_to (c_string path) req.body)
        λ written. outcome (has_written req.body written) 201 (codes "Stored") (codes "Stored") in
    if is_refused_entry path then forbidden else stored

unfoldable pub mkcol : Request → Program Reply
unfolding is_refused_entry
mkcol req =
    let path = normalize_path req.path in
    let made =
      ask (make_dir (c_string path)) λ ok. outcome ok 201 (codes "Created") (codes "Created") in
    if is_refused_entry path then forbidden else made

-- What is behind the scheme and the host.
abbrev pub from_slash : Bytes → ℕ → Option ℕ → Bytes
from_slash value start none = root
from_slash value start (some i) = drop (start + i) value

abbrev pub without_host : Bytes → Option ℕ → Bytes
without_host value none = value
without_host value (some scheme) =
    from_slash value (scheme + 3) (find root (drop (scheme + 3) value))

abbrev pub without_query : Bytes → Option ℕ → Bytes
without_query value none = value
without_query value (some q) = take q value

abbrev pub destination : Option Bytes → Bytes
destination none = []
destination (some v) =
    let value = without_host v (find (codes "://") v) in
    normalize_path (without_query value (find (codes "?") value))

unfoldable pub destination_path : Headers → Bytes
unfolding normalize_path header
destination_path hs = destination (header (codes "destination") hs)

abbrev pub not_f : Option Bytes → Bool
not_f none = true
not_f (some v) = not (bytes_eq (map lower v) (codes "f"))

unfoldable pub should_overwrite : Headers → Bool
unfolding header
should_overwrite hs = not_f (header (codes "overwrite") hs)

unfoldable pub transfer_to : Request → Bytes → Bytes → Program Reply
transfer_to req source dest =
    let answered = λ (ok : Bool). outcome ok 201 (codes "Done") (codes "Failed") in
    if bytes_eq req.method (codes "MOVE")
    then ask (rename_to (c_string source) (c_string dest)) answered
    else ask (copy_to source dest) answered

-- Onto a destination that exists.
unfoldable pub overwrite : Request → Bytes → Bytes → Program Reply
unfolding should_overwrite remove_at transfer_to
overwrite req source dest =
    let replaced = remove_at dest λ removed.
      if removed
      then transfer_to req source dest
      else text 500 (codes "Could not overwrite destination") in
    if should_overwrite req.headers then replaced else text 412 (codes "Destination exists")

unfoldable pub transfer : Request → Program Reply
unfolding is_refused_entry destination_path transfer_to overwrite
transfer req =
    let source = normalize_path req.path in
    let dest = destination_path req.headers in
    let onto =
      ask (exists (c_string dest))
        λ taken. if taken then overwrite req source dest else transfer_to req source dest in
    let checked = ask (exists (c_string source)) λ there. if there then onto else not_found in
    if is_refused_entry source || is_refused_entry dest then forbidden else checked
