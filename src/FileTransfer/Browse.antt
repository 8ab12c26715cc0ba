-- ===== src/FileTransfer/Browse.antt =====
-- The routes of src/CrossPointWebServer.cpp that read: options, locks, listings and downloads.
use crosspoint_simulator.Prelude.{
  ℕ, Bool, not, ◌&&◌, ◌||◌, [], ◌++◌, Option, none, some, if◌then◌else◌, is_empty, Bytes, codes,
  bytes_eq,
}
use crosspoint_simulator.WebSocket.Handshake.{header}
use crosspoint_simulator.Http.Response.{c_string}
use crosspoint_simulator.FileTransfer.Decode.{query_value}
use crosspoint_simulator.FileTransfer.Path.{root, normalize_path, is_protected_path, basename_of}
use crosspoint_simulator.FileTransfer.Request.{Request}
use crosspoint_simulator.FileTransfer.Storage.{Opened, exists, open_at, Program, done, ask}
use crosspoint_simulator.FileTransfer.Reply.{Reply, plain, attachment, attachment_head}
use crosspoint_simulator.FileTransfer.Listing.{propfind_xml, list_files_json}

abbrev pub text : ℕ → Bytes → Program Reply
text status body = done (plain status (codes "text/plain") [] body)

abbrev pub forbidden : Program Reply
forbidden = text 403 (codes "Forbidden")

abbrev pub not_found : Program Reply
not_found = text 404 (codes "Not found")

-- The checks of a path that the routes share.
unfoldable pub is_refused : Bytes → Bool
unfolding is_protected_path
is_refused path = is_empty path || is_protected_path path

-- The same for a path that may not be the root.
unfoldable pub is_refused_entry : Bytes → Bool
unfolding is_refused
is_refused_entry path = bytes_eq path root || is_refused path

abbrev pub answer_options : Program Reply
answer_options = done (
    plain 204 (codes "text/plain")
      (codes
        "DAV: 1\r\nAllow: OPTIONS, GET, HEAD, POST, PUT, DELETE, PROPFIND, MKCOL, MOVE, COPY\r\nMS-Author-Via: DAV\r\n")
      [])

abbrev pub answer_lock : Program Reply
answer_lock = done (
    plain 501 (codes "text/plain") (codes "DAV: 1\r\nX-CrossPoint-Simulator: lock-not-enforced\r\n")
      (codes "[SIM] WebDAV locks are not supported by the native simulator"))

abbrev pub depth_value : Option Bytes → ℕ
depth_value none = 1
depth_value (some v) = if bytes_eq v (codes "0") then 0 else 1

unfoldable pub propfind : Request → Program Reply
unfolding is_refused propfind_xml
propfind req =
    let path = normalize_path req.path in
    let depth = depth_value (header (codes "depth") req.headers) in
    let listed = ask (open_at (c_string path)) λ found. done (
      plain 207 (codes "application/xml; charset=\"utf-8\"") (codes "DAV: 1\r\n")
        (propfind_xml path depth found)) in
    if is_refused path
    then forbidden
    else ask (exists (c_string path))
        λ there. if not there && not (bytes_eq path root) then not_found else listed

unfoldable pub status_json : Bytes → Bytes
status_json version =
    codes "{\"version\":\"" ++ (version ++ codes "\",\"ip\":\"127.0.0.1\",\"mode\":\"SIM\"}")

unfoldable pub list_files : Request → Program Reply
unfolding is_refused list_files_json query_value
list_files req =
    let path = normalize_path (query_value req.query (codes "path") root) in
    let listed =
      ask (open_at (c_string path))
        λ found. done (plain 200 (codes "application/json") [] (list_files_json found)) in
    if is_refused path then forbidden else listed

abbrev pub not_a_file : Program Reply
not_a_file = text 400 (codes "Not a file")

-- A file that exists, or else what is sent.
abbrev pub with_file : Bytes → (Opened → Program Reply) → Option Opened → Program Reply
with_file path k none = not_a_file
with_file path k (some o) = if o.directory then not_a_file else k o

-- The checks that `handleDownload` and the route both make, and what follows them.
unfoldable pub open_file : Bytes → (Opened → Program Reply) → Program Reply
unfolding is_refused_entry
open_file path k =
    let opened = ask (open_at (c_string path)) (with_file path k) in
    if is_refused_entry path
    then not_found
    else ask (exists (c_string path)) λ there. if there then opened else not_found

unfoldable pub handle_download : Bytes → Program Reply
unfolding open_file
handle_download path = open_file path λ o. done (attachment o.size (basename_of path) o.reads)

unfoldable pub download : Request → Program Reply
unfolding open_file handle_download query_value
download req =
    let path = normalize_path (query_value req.query (codes "path") []) in
    open_file path λ o.
      if bytes_eq req.method (codes "HEAD")
      then done (attachment_head o.size (basename_of path))
      else handle_download path
