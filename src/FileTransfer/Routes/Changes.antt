-- ===== src/FileTransfer/Routes/Changes.antt =====
-- Each route of src/CrossPointWebServer.cpp that changes files makes allowed calls only.

use crosspoint_simulator.WebSocket.Handshake.{Headers, header}
use crosspoint_simulator.FileTransfer.Multipart.Names.{NamesFile, parse_multipart_file-NamesFile}
use crosspoint_simulator.FileTransfer.Multipart.{parse_multipart_file}
use crosspoint_simulator.FileTransfer.Change.{
  removal, put, move, upload_to, delete, mkdir, upload, mkcol, rename, remove_at, upload_parsed,
  has_written, root_if_empty, transfer_to, overwrite, transfer, destination_path, should_overwrite,
  destination,
}
use crosspoint_simulator.Prelude.{
  ◌≡◌, Bool, false, ◌||◌, Option, none, some, Bytes, codes, bytes_eq, if-cases,
}
use crosspoint_simulator.FileTransfer.Decode.{query_value, read_form_value}
use crosspoint_simulator.FileTransfer.Path.{
  root, normalize_path, is_protected_name, join_path, basename_of,
}
use crosspoint_simulator.FileTransfer.Path.Allowed.{parent_of-basename_of, basename_of-NoSlash}
use crosspoint_simulator.FileTransfer.Request.{Request}
use crosspoint_simulator.FileTransfer.Storage.{Opened, Program}
use crosspoint_simulator.FileTransfer.Reply.{Reply}
use crosspoint_simulator.FileTransfer.Browse.{is_refused, is_refused_entry}
use crosspoint_simulator.FileTransfer.Routes.Calls.{
  EntryPath, Guarded, or-false, is_refused-AllowedPath, is_refused_entry-EntryPath,
  join_path-EntryPath, EntryPath-SeenPath, EntryPath-SeenEntry, is_refused-SeenPath,
  outcome-Guarded,
}

pub upload_to-Guarded :
    (dir filename bytes : Bytes)
    → EntryPath (join_path dir filename)
    → Guarded (upload_to dir filename bytes)
unfolding upload_to
upload_to-Guarded dir filename bytes h = (
  tt,
  λ _. (EntryPath-SeenEntry _ h, λ w. (tt, λ _. outcome-Guarded (has_written bytes w) 200 _ _)),
)

pub upload_parsed-Guarded :
    (req : Request) (o : Option (Bytes × Bytes)) → NamesFile o → Guarded (upload_parsed req o)
upload_parsed-Guarded req none e = tt
upload_parsed-Guarded req (some (filename, bytes)) e =
    let asked = query_value req.query (codes "path") root in
    if-cases Guarded (is_protected_name filename) (λ _. tt)
      λ open_name.
        if-cases Guarded (is_refused (normalize_path asked)) (λ _. tt)
          λ h.
            let dir = is_refused-AllowedPath asked h in
            let stored =
              upload_to-Guarded (normalize_path asked) filename bytes
                (join_path-EntryPath (normalize_path asked) filename dir (open_name, e)) in
            (
              is_refused-SeenPath asked h,
              λ there.
                  if-cases Guarded there (λ _. stored)
                    (λ _. (is_refused-SeenPath asked h, λ _. stored)),
            )

pub upload-Guarded : (req : Request) → Guarded (upload req)
unfolding upload
upload-Guarded req =
    upload_parsed-Guarded req (parse_multipart_file req.headers req.body)
      (parse_multipart_file-NamesFile req.headers req.body)

pub mkdir-Guarded : (req : Request) → Guarded (mkdir req)
unfolding mkdir
mkdir-Guarded req =
    let asked = root_if_empty (read_form_value req.body (codes "path")) in
    let given = read_form_value req.body (codes "name") in
    if-cases Guarded (is_refused (normalize_path asked) || is_protected_name (basename_of given))
      (λ _. tt)
      λ h.
        let (dir, name) = or-false _ _ h in
        (
          EntryPath-SeenPath _ (
              join_path-EntryPath _ _ (is_refused-AllowedPath asked dir)
                (name, basename_of-NoSlash given)),
          λ ok. outcome-Guarded ok 200 _ _,
        )

pub rename-Guarded : (req : Request) → Guarded (rename req)
unfolding rename
rename-Guarded req =
    let asked = read_form_value req.body (codes "path") in
    let given = read_form_value req.body (codes "name") in
    if-cases Guarded
      (is_refused_entry (normalize_path asked) || is_protected_name (basename_of given)) (λ _. tt)
      λ h.
        let (entry, name) = or-false _ _ h in
        let path = is_refused_entry-EntryPath asked entry in
        let parent = (parent_of-basename_of (normalize_path asked) path.0 path.1).0 in
        (
          (
            EntryPath-SeenEntry _ path,
            EntryPath-SeenEntry _
                (join_path-EntryPath _ _ parent (name, basename_of-NoSlash given)),
          ),
          λ ok. outcome-Guarded ok 200 _ _,
        )

pub move-Guarded : (req : Request) → Guarded (move req)
unfolding move
move-Guarded req =
    let asked = read_form_value req.body (codes "path") in
    let given = read_form_value req.body (codes "dest") in
    if-cases Guarded (is_refused_entry (normalize_path asked) || is_refused (normalize_path given))
      (λ _. tt)
      λ h.
        let (entry, dir) = or-false _ _ h in
        let path = is_refused_entry-EntryPath asked entry in
        let base = (parent_of-basename_of (normalize_path asked) path.0 path.1).1 in
        (
          (
            EntryPath-SeenEntry _ path,
            EntryPath-SeenEntry _ (join_path-EntryPath _ _ (is_refused-AllowedPath given dir) base),
          ),
          λ ok. outcome-Guarded ok 200 _ _,
        )

pub removal-Guarded :
    (path : Bytes) (k : Bool → Program Reply) (found : Option Opened)
    → EntryPath path
    → ((ok : Bool) → Guarded (k ok))
    → Guarded (removal path k found)
removal-Guarded path k none h f = (EntryPath-SeenEntry path h, f)
removal-Guarded path k (some o) h f =
    if-cases Guarded o.directory (λ _. (EntryPath-SeenEntry path h, f))
      (λ _. (EntryPath-SeenEntry path h, f))

pub remove_at-Guarded :
    (path : Bytes) (k : Bool → Program Reply)
    → EntryPath path
    → ((ok : Bool) → Guarded (k ok))
    → Guarded (remove_at path k)
unfolding remove_at
remove_at-Guarded path k h f =
    (EntryPath-SeenPath path h, λ found. removal-Guarded path k found h f)

pub delete-Guarded : (asked : Bytes) → Guarded (delete (normalize_path asked))
unfolding delete
delete-Guarded asked =
    if-cases Guarded (is_refused_entry (normalize_path asked)) (λ _. tt)
      λ h.
        remove_at-Guarded _ _ (is_refused_entry-EntryPath asked h)
          (λ ok. outcome-Guarded ok 200 _ _)

pub put-Guarded : (req : Request) → Guarded (put req)
unfolding put
put-Guarded req =
    if-cases Guarded (is_refused_entry (normalize_path req.path)) (λ _. tt)
      λ h. (
        EntryPath-SeenEntry _ (is_refused_entry-EntryPath req.path h),
        λ w. outcome-Guarded (has_written req.body w) 201 _ _,
      )

pub mkcol-Guarded : (req : Request) → Guarded (mkcol req)
unfolding mkcol
mkcol-Guarded req =
    if-cases Guarded (is_refused_entry (normalize_path req.path)) (λ _. tt)
      λ h. (
        EntryPath-SeenPath _ (is_refused_entry-EntryPath req.path h),
        λ ok. outcome-Guarded ok 201 _ _,
      )

pub transfer_to-Guarded :
    (req : Request) (source dest : Bytes)
    → EntryPath source
    → EntryPath dest
    → Guarded (transfer_to req source dest)
unfolding transfer_to
transfer_to-Guarded req source dest h k =
    if-cases Guarded (bytes_eq req.method (codes "MOVE"))
      (λ _. (
        (EntryPath-SeenEntry source h, EntryPath-SeenEntry dest k),
        λ ok. outcome-Guarded ok 201 _ _,
      ))
      (λ _. ((h, k), λ ok. outcome-Guarded ok 201 _ _))

pub overwrite-Guarded :
    (req : Request) (source dest : Bytes)
    → EntryPath source
    → EntryPath dest
    → Guarded (overwrite req source dest)
unfolding overwrite
overwrite-Guarded req source dest h k =
    if-cases Guarded (should_overwrite req.headers)
      (λ _. remove_at-Guarded dest _ k λ removed.
        if-cases Guarded removed (λ _. transfer_to-Guarded req source dest h k) (λ _. tt))
      (λ _. tt)

pub destination-EntryPath :
    (o : Option Bytes) → is_refused_entry (destination o) ≡ false → EntryPath (destination o)
unfolding is_refused_entry is_refused bytes_eq
destination-EntryPath none h = cc
destination-EntryPath (some v) h = is_refused_entry-EntryPath _ h

pub destination_path-EntryPath :
    (hs : Headers)
    → is_refused_entry (destination_path hs) ≡ false
    → EntryPath (destination_path hs)
unfolding destination_path
destination_path-EntryPath hs h = destination-EntryPath (header (codes "destination") hs) h

pub transfer-Guarded : (req : Request) → Guarded (transfer req)
unfolding transfer
transfer-Guarded req =
    let source = normalize_path req.path in
    let dest = destination_path req.headers in
    if-cases Guarded (is_refused_entry source || is_refused_entry dest) (λ _. tt)
      λ h.
        let (from, to) = or-false _ _ h in
        let f = is_refused_entry-EntryPath req.path from in
        let t = destination_path-EntryPath req.headers to in
        (
          EntryPath-SeenPath source f,
          λ there.
              if-cases Guarded there
                (λ _. (
                  EntryPath-SeenPath dest t,
                  λ taken.
                      if-cases Guarded taken (λ _. overwrite-Guarded req source dest f t)
                        (λ _. transfer_to-Guarded req source dest f t),
                ))
                (λ _. tt),
        )
