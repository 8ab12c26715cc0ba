-- ===== src/FileTransfer/Routes/ReadOnly.antt =====
-- Which requests to src/CrossPointWebServer.cpp change nothing.
use crosspoint_simulator.Prelude.{
  ◌≡◌, Bool, false, not, ◌&&◌, ◌||◌, List, [], ◌∷◌, Option, none, some, arith, if◌then◌else◌, any,
  is_empty, Bytes, codes, bytes_eq, if-cases, All, Bool-cases, inl, inr, subst, sym, ap, ap₂, All,
}
use crosspoint_simulator.FileTransfer.Decode.{query_value}
use crosspoint_simulator.FileTransfer.Path.{root, normalize_path}
use crosspoint_simulator.FileTransfer.Request.{Request}
use crosspoint_simulator.FileTransfer.Storage.{Opened, Call, exists, open_at, Program, Every}
use crosspoint_simulator.FileTransfer.Reply.{Reply}
use crosspoint_simulator.FileTransfer.Browse.{
  is_refused, is_refused_entry, propfind, list_files, with_file, open_file, handle_download,
  download,
}
use crosspoint_simulator.FileTransfer.Routes.{has_method, is_at, handle_change, handle}

-- Asking whether a file exists, and reading it.
abbrev pub ReadCall : Call → Type 0
ReadCall (exists p) = Unit
ReadCall (open_at p) = Unit
ReadCall _ = ⊥

abbrev Reads : Program Reply → Type 0
Reads = Every ReadCall

with_file-Reads :
    (path : Bytes) (k : Opened → Program Reply) (found : Option Opened)
    → ((o : Opened) → Reads (k o))
    → Reads (with_file path k found)
with_file-Reads path k none h = tt
with_file-Reads path k (some o) h = if-cases Reads o.directory (λ _. tt) (λ _. h o)

open_file-Reads :
    (path : Bytes) (k : Opened → Program Reply)
    → ((o : Opened) → Reads (k o))
    → Reads (open_file path k)
unfolding open_file
open_file-Reads path k h =
    if-cases Reads (is_refused_entry path) (λ _. tt)
      λ _. (
        tt,
        λ there.
            if-cases Reads there (λ _. (tt, λ found. with_file-Reads path k found h)) (λ _. tt),
      )

download-Reads : (req : Request) → Reads (download req)
unfolding download handle_download
download-Reads req =
    let path = normalize_path (query_value req.query (codes "path") []) in
    open_file-Reads path _ λ o.
      if-cases Reads (bytes_eq req.method (codes "HEAD")) (λ _. tt)
        (λ _. open_file-Reads path _ (λ o'. tt))

propfind-Reads : (req : Request) → Reads (propfind req)
unfolding propfind
propfind-Reads req =
    let path = normalize_path req.path in
    if-cases Reads (is_refused path) (λ _. tt)
      λ _. (
        tt,
        λ there.
            if-cases Reads (not there && not (bytes_eq path root)) (λ _. tt) (λ _. (tt, λ _. tt)),
      )

list_files-Reads : (req : Request) → Reads (list_files req)
unfolding list_files
list_files-Reads req =
    if-cases Reads (is_refused (normalize_path (query_value req.query (codes "path") root)))
      (λ _. tt) (λ _. (tt, λ _. tt))

abbrev changing : List Bytes
changing =
    codes "POST" ∷ codes "DELETE" ∷ codes "PUT" ∷ codes "MKCOL" ∷ codes "MOVE" ∷ codes "COPY" ∷ []

-- Whether the method is one that changes files.
abbrev pub is_changing : Bytes → Bool
is_changing method = any (bytes_eq method) changing

not_any : (p : Bytes → Bool) (ms : List Bytes) → any p ms ≡ false → All (λ m. p m ≡ false) ms
not_any p [] h = tt
not_any p (m ∷ ms) h = elim (Bool-cases (p m)) [
  | inl e ↦ ground (arith, e)
  | inr e ↦ (e, not_any p ms (ground (arith, e)))
]

-- Past a test that fails.
past : (b : Bool) (x y : Program Reply) → b ≡ false → Reads y → Reads (if b then x else y)
past b x y h r = subst (λ (c : Bool). Reads (if c then x else y)) (sym h) r

is_at-other :
    (req : Request) (method path : Bytes)
    → has_method req method ≡ false
    → is_at req method path ≡ false
is_at-other req method path h = ap (λ b. b && bytes_eq req.path path) h

handle_change-Reads : (req : Request) → is_changing req.method ≡ false → Reads (handle_change req)
unfolding handle_change
handle_change-Reads req h =
    let others = not_any (has_method req) changing h in
    let post = λ (path : Bytes). is_at-other req (codes "POST") path others.0 in
    past _ _ _ (post (codes "/upload")) (
      past _ _ _ (post (codes "/mkdir")) (
        past _ _ _ (post (codes "/rename")) (
          past _ _ _ (post (codes "/move")) (
            past _ _ _ (post (codes "/delete")) (
              past _ _ _ others.1.0 (
                past _ _ _ others.1.1.0 (
                  past _ _ _ others.1.1.1.0
                    (past _ _ _ (ap₂ ◌||◌ others.1.1.1.1.0 others.1.1.1.1.1.0) tt))))))))

-- A request whose method is none of POST, DELETE, PUT, MKCOL, MOVE and COPY changes nothing, whatever
-- storage answers: it asks whether files exist and reads them.
pub handle-ReadCall :
    (page version : Bytes) (req : Request)
    → is_changing req.method ≡ false
    → Every ReadCall (handle page version req)
unfolding handle
handle-ReadCall page version req h =
    let get = codes "GET" in
    if-cases Reads (is_empty req.path) (λ _. tt)
      λ _.
        if-cases Reads (has_method req (codes "OPTIONS")) (λ _. tt)
          λ _.
            if-cases Reads (has_method req (codes "LOCK") || has_method req (codes "UNLOCK"))
              (λ _. tt)
              λ _.
                if-cases Reads (has_method req (codes "PROPFIND")) (λ _. propfind-Reads req)
                  λ _.
                    if-cases Reads (is_at req get root || is_at req get (codes "/files")) (λ _. tt)
                      λ _.
                        if-cases Reads (is_at req get (codes "/api/status")) (λ _. tt)
                          λ _.
                            if-cases Reads (is_at req get (codes "/api/files"))
                              (λ _. list_files-Reads req)
                              λ _.
                                if-cases Reads
                                  (is_at req get (codes "/download")
                                    || is_at req (codes "HEAD") (codes "/download"))
                                  (λ _. download-Reads req) (λ _. handle_change-Reads req h)
