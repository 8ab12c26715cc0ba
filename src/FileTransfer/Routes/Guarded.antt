-- ===== src/FileTransfer/Routes/Guarded.antt =====
-- Which files a request to src/CrossPointWebServer.cpp can reach.
use crosspoint_simulator.FileTransfer.Routes.{
  handle, handle_change, serve, handle_parsed, Socket, is_at, is_empty, has_method,
}
use crosspoint_simulator.FileTransfer.Request.Normal.{IsNormal, Normal, parse_request-Normal}
use crosspoint_simulator.FileTransfer.Change.{delete}
use crosspoint_simulator.Prelude.{
  not, ◌&&◌, ◌||◌, [], Option, none, some, Bytes, codes, bytes_eq, if-cases, subst, sym,
}
use crosspoint_simulator.FileTransfer.Decode.{query_value, read_form_value}
use crosspoint_simulator.FileTransfer.Path.{root, normalize_path}
use crosspoint_simulator.FileTransfer.Request.{Request, parse_request}
use crosspoint_simulator.FileTransfer.Storage.{Opened, Program, Every}
use crosspoint_simulator.FileTransfer.Reply.{Reply}
use crosspoint_simulator.FileTransfer.Browse.{
  is_refused, is_refused_entry, propfind, list_files, with_file, open_file, handle_download,
  download,
}
use crosspoint_simulator.FileTransfer.Routes.Calls.{
  AllowedCall, Guarded, is_refused_entry-EntryPath, EntryPath-SeenPath, is_refused-SeenPath,
}
use crosspoint_simulator.FileTransfer.Routes.Changes.{
  upload-Guarded, mkdir-Guarded, rename-Guarded, move-Guarded, delete-Guarded, put-Guarded,
  mkcol-Guarded, transfer-Guarded,
}

propfind-Guarded : (req : Request) → Guarded (propfind req)
unfolding propfind
propfind-Guarded req =
    let path = normalize_path req.path in
    if-cases Guarded (is_refused path) (λ _. tt)
      λ h.
        let seen = is_refused-SeenPath req.path h in
        (
          seen,
          λ there.
              if-cases Guarded (not there && not (bytes_eq path root)) (λ _. tt)
                λ _. (seen, λ _. tt),
        )

list_files-Guarded : (req : Request) → Guarded (list_files req)
unfolding list_files
list_files-Guarded req =
    let asked = query_value req.query (codes "path") root in
    if-cases Guarded (is_refused (normalize_path asked)) (λ _. tt)
      λ h. (is_refused-SeenPath asked h, λ _. tt)

with_file-Guarded :
    (path : Bytes) (k : Opened → Program Reply) (found : Option Opened)
    → ((o : Opened) → Guarded (k o))
    → Guarded (with_file path k found)
with_file-Guarded path k none h = tt
with_file-Guarded path k (some o) h = if-cases Guarded o.directory (λ _. tt) (λ _. h o)

open_file-Guarded :
    (path : Bytes) (k : Opened → Program Reply)
    → ((o : Opened) → Guarded (k o))
    → Guarded (open_file (normalize_path path) k)
unfolding open_file
open_file-Guarded path k h =
    if-cases Guarded (is_refused_entry (normalize_path path)) (λ _. tt)
      λ below.
        let seen = EntryPath-SeenPath _ (is_refused_entry-EntryPath path below) in
        (
          seen,
          λ there.
              if-cases Guarded there
                (λ _. (seen, λ found. with_file-Guarded (normalize_path path) k found h)) (λ _. tt),
        )

download-Guarded : (req : Request) → Guarded (download req)
unfolding download handle_download
download-Guarded req =
    let asked = query_value req.query (codes "path") [] in
    open_file-Guarded asked _ λ o.
      if-cases Guarded (bytes_eq req.method (codes "HEAD")) (λ _. tt)
        (λ _. open_file-Guarded asked _ (λ o'. tt))

handle_change-Guarded : (req : Request) → IsNormal req → Guarded (handle_change req)
unfolding handle_change
handle_change-Guarded req (asked, e) =
    if-cases Guarded (is_at req (codes "POST") (codes "/upload")) (λ _. upload-Guarded req)
      λ _.
        if-cases Guarded (is_at req (codes "POST") (codes "/mkdir")) (λ _. mkdir-Guarded req)
          λ _.
            if-cases Guarded (is_at req (codes "POST") (codes "/rename")) (λ _. rename-Guarded req)
              λ _.
                if-cases Guarded (is_at req (codes "POST") (codes "/move")) (λ _. move-Guarded req)
                  λ _.
                    if-cases Guarded (is_at req (codes "POST") (codes "/delete"))
                      (λ _. delete-Guarded (read_form_value req.body (codes "path")))
                      λ _.
                        if-cases Guarded (has_method req (codes "DELETE"))
                          (λ _. subst (λ p. Guarded (delete p)) (sym e) (delete-Guarded asked))
                          λ _.
                            if-cases Guarded (has_method req (codes "PUT")) (λ _. put-Guarded req)
                              λ _.
                                if-cases Guarded (has_method req (codes "MKCOL"))
                                  (λ _. mkcol-Guarded req)
                                  λ _.
                                    if-cases Guarded
                                      (has_method req (codes "MOVE")
                                        || has_method req (codes "COPY"))
                                      (λ _. transfer-Guarded req) λ _. tt

module _ (page version : Bytes) where
  handle-Guarded : (req : Request) → IsNormal req → Guarded (handle page version req)
  unfolding handle
  handle-Guarded req h =
      let get = codes "GET" in
      if-cases Guarded (is_empty req.path) (λ _. tt)
        λ _.
          if-cases Guarded (has_method req (codes "OPTIONS")) (λ _. tt)
            λ _.
              if-cases Guarded (has_method req (codes "LOCK") || has_method req (codes "UNLOCK"))
                (λ _. tt)
                λ _.
                  if-cases Guarded (has_method req (codes "PROPFIND")) (λ _. propfind-Guarded req)
                    λ _.
                      if-cases Guarded (is_at req get root || is_at req get (codes "/files"))
                        (λ _. tt)
                        λ _.
                          if-cases Guarded (is_at req get (codes "/api/status")) (λ _. tt)
                            λ _.
                              if-cases Guarded (is_at req get (codes "/api/files"))
                                (λ _. list_files-Guarded req)
                                λ _.
                                  if-cases Guarded
                                    (is_at req get (codes "/download")
                                      || is_at req (codes "HEAD") (codes "/download"))
                                    (λ _. download-Guarded req) (λ _. handle_change-Guarded req h)

  handle_parsed-Guarded : (o : Option Request) → Normal o → Guarded (handle_parsed page version o)
  handle_parsed-Guarded none h = tt
  handle_parsed-Guarded (some req) h = handle-Guarded req h

  -- Whatever a client sends and whatever storage answers, each path that storage is asked about is
  -- what is in front of the first NUL of an absolute path whose segments are not empty, hold no slash,
  -- begin with no dot and name no protected file; and none that is written, renamed, copied or
  -- removed is the root, before it is cut at a NUL.
  pub serve-AllowedCall : (s : Socket) → Every AllowedCall (serve page version s)
  unfolding serve
  serve-AllowedCall s = handle_parsed-Guarded (parse_request s) (parse_request-Normal s)
