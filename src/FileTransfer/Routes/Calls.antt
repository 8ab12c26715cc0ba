-- ===== src/FileTransfer/Routes/Calls.antt =====
-- The storage calls that the checks of src/CrossPointWebServer.cpp allow, and what their checks give.

use crosspoint_simulator.FileTransfer.Change.{outcome}
use crosspoint_simulator.Prelude.{
  ◌≡◌, ◌∙◌, refl, ap, Bool, false, ◌||◌, List, [], ◌∷◌, ◌++◌, arith, All, Bytes, bytes_eq, if-cases,
  ℕ,
}
use crosspoint_simulator.Http.Response.{c_string}
use crosspoint_simulator.FileTransfer.Path.{root, normalize_path, is_protected_name, join_path}
use crosspoint_simulator.FileTransfer.Path.Segments.{path_text}
use crosspoint_simulator.FileTransfer.Path.Allowed.{
  Allowed, AllowedPath, normalize_path-AllowedPath, join_path-AllowedPath, join_path-path_text,
}
use crosspoint_simulator.FileTransfer.Storage.{
  Call, exists, open_at, make_dir, remove_file, remove_dir, rename_to, copy_to, write_to,
  begin_upload, end_upload, Program, Every,
}
use crosspoint_simulator.FileTransfer.Reply.{Reply}
use crosspoint_simulator.FileTransfer.Browse.{is_refused, is_refused_entry}

-- A path of allowed segments that is not the root.
abbrev pub EntryPath : Bytes → Type 0
EntryPath path = AllowedPath path × (bytes_eq path root ≡ false)

-- What storage sees of such a path: it ends at the first NUL.
abbrev pub SeenPath : Bytes → Type 0
SeenPath p = (path : Bytes) × AllowedPath path × (p ≡ c_string path)

abbrev pub SeenEntry : Bytes → Type 0
SeenEntry p = (path : Bytes) × EntryPath path × (p ≡ c_string path)

-- Files are looked for and folders made at allowed paths; what is written, renamed, copied or removed
-- is not the root either.
abbrev pub AllowedCall : Call → Type 0
AllowedCall (exists p) = SeenPath p
AllowedCall (open_at p) = SeenPath p
AllowedCall (make_dir p) = SeenPath p
AllowedCall (remove_file p) = SeenEntry p
AllowedCall (remove_dir p) = SeenEntry p
AllowedCall (rename_to p q) = SeenEntry p × SeenEntry q
AllowedCall (copy_to p q) = EntryPath p × EntryPath q
AllowedCall (write_to p bytes) = SeenEntry p
AllowedCall (begin_upload name total) = Unit
AllowedCall (end_upload ok name size) = Unit

abbrev pub Guarded : Program Reply → Type 0
Guarded = Every AllowedCall

pub or-false : (a b : Bool) → (a || b) ≡ false → (a ≡ false) × (b ≡ false)
or-false a b h = (ground arith, ground arith)

pub is_refused-AllowedPath :
    (path : Bytes) → is_refused (normalize_path path) ≡ false → AllowedPath (normalize_path path)
unfolding is_refused
is_refused-AllowedPath path h =
    let (some_bytes, free) = or-false _ _ h in normalize_path-AllowedPath path some_bytes free

pub is_refused_entry-EntryPath :
    (path : Bytes)
    → is_refused_entry (normalize_path path) ≡ false
    → EntryPath (normalize_path path)
unfolding is_refused_entry
is_refused_entry-EntryPath path h =
    let (below, free) = or-false _ _ h in (is_refused-AllowedPath path free, below)

pub bytes_eq-root : (s rest : Bytes) → Allowed s → bytes_eq (b'/' ∷ s ++ rest) root ≡ false
unfolding bytes_eq is_protected_name
bytes_eq-root [] rest h = ground (arith, h.0)
bytes_eq-root (c ∷ s) rest h = refl

pub path_text-below :
    (ss : List Bytes) (name : Bytes)
    → All Allowed ss
    → Allowed name
    → bytes_eq (path_text (ss ++ name ∷ [])) root ≡ false
path_text-below [] name hs h = bytes_eq-root name [] h
path_text-below (s ∷ ss) name hs h = bytes_eq-root s _ hs.0

pub join_path-EntryPath :
    (dir name : Bytes) → AllowedPath dir → Allowed name → EntryPath (join_path dir name)
join_path-EntryPath dir name (ss, e, hs) h = (
  join_path-AllowedPath dir name (ss, e, hs) h,
  ap (λ d. bytes_eq (join_path d name) root) e
      ∙ ap (λ p. bytes_eq p root) (join_path-path_text ss name hs)
      ∙ path_text-below ss name hs h,
)

pub EntryPath-SeenPath : (path : Bytes) → EntryPath path → SeenPath (c_string path)
EntryPath-SeenPath path h = (path, h.0, refl)

pub EntryPath-SeenEntry : (path : Bytes) → EntryPath path → SeenEntry (c_string path)
EntryPath-SeenEntry path h = (path, h, refl)

pub is_refused-SeenPath :
    (path : Bytes)
    → is_refused (normalize_path path) ≡ false
    → SeenPath (c_string (normalize_path path))
is_refused-SeenPath path h = (normalize_path path, is_refused-AllowedPath path h, refl)

pub outcome-Guarded :
    (ok : Bool) (status : ℕ) (good bad : Bytes) → Guarded (outcome ok status good bad)
outcome-Guarded ok status good bad = if-cases Guarded ok (λ _. tt) (λ _. tt)
