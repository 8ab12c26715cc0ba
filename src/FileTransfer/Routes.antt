-- ===== src/FileTransfer/Routes.antt =====
-- `handleClientRequest` of src/CrossPointWebServer.cpp, one definition for each of its routes. The text
-- of the page and the version are parameters.
pub mod Calls
pub mod Changes
pub mod Guarded
pub mod ReadOnly
pub mod Protected
pub mod Refused
use crosspoint_simulator.Prelude.{
  ℕ, ◌+◌, Bool, true, false, not, ◌&&◌, ◌||◌, List, [], ◌∷◌, ◌++◌, map, Option, none, some, ◌==◌,
  if◌then◌else◌, length, take, drop, is_empty, Bytes, codes, bytes_eq, find, lower,
}
use crosspoint_simulator.WebSocket.Socket.{Socket}
use crosspoint_simulator.WebSocket.Handshake.{Headers, header}
use crosspoint_simulator.Http.Response.{c_string}
use crosspoint_simulator.FileTransfer.Decode.{query_value, read_form_value}
use crosspoint_simulator.FileTransfer.Path.{
  root, normalize_path, is_protected_name, is_protected_path, basename_of, parent_of, join_path,
}
use crosspoint_simulator.FileTransfer.Request.{Request, parse_request}
use crosspoint_simulator.FileTransfer.Multipart.{parse_multipart_file}
use crosspoint_simulator.FileTransfer.Storage.{
  Opened, exists, open_at, make_dir, remove_file, remove_dir, rename_to, copy_to, write_to,
  begin_upload, end_upload, Program, done, ask,
}
use crosspoint_simulator.FileTransfer.Reply.{Reply, plain, attachment, attachment_head}
use crosspoint_simulator.FileTransfer.Listing.{propfind_xml, list_files_json}
use crosspoint_simulator.FileTransfer.Browse.{
  text, forbidden, not_found, is_refused, is_refused_entry, answer_options, answer_lock,
  depth_value, propfind, status_json, list_files, not_a_file, with_file, open_file, handle_download,
  download,
}
use crosspoint_simulator.FileTransfer.Change.{
  has_written, outcome, upload_to, upload_parsed, upload, root_if_empty, mkdir, rename, move,
  removal, remove_at, delete, put, mkcol, from_slash, without_host, without_query, destination,
  destination_path, not_f, should_overwrite, transfer_to, overwrite, transfer,
}

abbrev pub has_method : Request → Bytes → Bool
has_method req method = bytes_eq req.method method

abbrev pub is_at : Request → Bytes → Bytes → Bool
is_at req method path = bytes_eq req.method method && bytes_eq req.path path

-- The routes with a form or WebDAV's methods that change files.
unfoldable pub handle_change : Request → Program Reply
unfolding upload mkdir rename move delete put mkcol transfer
handle_change req =
    if is_at req (codes "POST") (codes "/upload")
    then upload req
    else if is_at req (codes "POST") (codes "/mkdir")
    then mkdir req
    else if is_at req (codes "POST") (codes "/rename")
    then rename req
    else if is_at req (codes "POST") (codes "/move")
    then move req
    else if is_at req (codes "POST") (codes "/delete")
    then delete (normalize_path (read_form_value req.body (codes "path")))
    else if has_method req (codes "DELETE")
    then delete req.path
    else if has_method req (codes "PUT")
    then put req
    else if has_method req (codes "MKCOL")
    then mkcol req
    else if has_method req (codes "MOVE") || has_method req (codes "COPY")
    then transfer req
    else not_found

module _ (page version : Bytes) where
  unfoldable pub handle : Request → Program Reply
  unfolding propfind list_files download handle_change status_json
  handle req =
      let get = codes "GET" in
      if is_empty req.path
      then text 400 (codes "Bad request")
      else if has_method req (codes "OPTIONS")
      then answer_options
      else if has_method req (codes "LOCK") || has_method req (codes "UNLOCK")
      then answer_lock
      else if has_method req (codes "PROPFIND")
      then propfind req
      else if is_at req get root || is_at req get (codes "/files")
      then done (plain 200 (codes "text/html; charset=utf-8") [] page)
      else if is_at req get (codes "/api/status")
      then done (plain 200 (codes "application/json") [] (status_json version))
      else if is_at req get (codes "/api/files")
      then list_files req
      else if is_at req get (codes "/download") || is_at req (codes "HEAD") (codes "/download")
      then download req
      else handle_change req

  abbrev pub handle_parsed : Option Request → Program Reply
  handle_parsed none = text 400 (codes "Bad request")
  handle_parsed (some req) = handle req

  -- A connection, from what its `recv` calls find.
  unfoldable pub serve : Socket → Program Reply
  unfolding parse_request handle
  serve s = handle_parsed (parse_request s)
