-- ===== src/FileTransfer/Routes/Refused.antt =====
-- Which requests to src/CrossPointWebServer.cpp are refused before storage is asked.
use crosspoint_simulator.Prelude.{
  ◌≡◌, ◌∙◌, refl, ap, Bool, true, false, ◌||◌, if◌then◌else◌, is_empty, Bytes, codes, bytes_eq,
}
use crosspoint_simulator.WebSocket.Handshake.{Headers}
use crosspoint_simulator.FileTransfer.Path.{normalize_path}
use crosspoint_simulator.FileTransfer.Request.{Request}
use crosspoint_simulator.FileTransfer.Storage.{Program}
use crosspoint_simulator.FileTransfer.Reply.{Reply}
use crosspoint_simulator.FileTransfer.Browse.{forbidden, is_refused, is_refused_entry, propfind}
use crosspoint_simulator.FileTransfer.Change.{delete, put, mkcol, destination_path, transfer}
use crosspoint_simulator.FileTransfer.Routes.{handle_change, handle}
use crosspoint_simulator.FileTransfer.Routes.Protected.{
  Hidden, HiddenEntry, PlainHidden, HiddenDestination, Hidden-refused, HiddenEntry-refused,
  PlainHidden-refused, HiddenDestination-refused, or-true,
}

-- What each WebDAV route refuses, by the method of its requests. DELETE takes the path as it is, which the
-- request has already normalised; the others decode it again.
pub data Refused (path : Bytes) (headers : Headers) : Bytes → Type 0 where
  propfind_refused : Hidden path → Refused path headers (codes "PROPFIND")
  put_refused : HiddenEntry path → Refused path headers (codes "PUT")
  mkcol_refused : HiddenEntry path → Refused path headers (codes "MKCOL")
  delete_refused : PlainHidden path → Refused path headers (codes "DELETE")
  move_refused : HiddenEntry path → Refused path headers (codes "MOVE")
  copy_refused : HiddenEntry path → Refused path headers (codes "COPY")
  move_onto_refused : HiddenDestination headers → Refused path headers (codes "MOVE")
  copy_onto_refused : HiddenDestination headers → Refused path headers (codes "COPY")

put-forbidden :
    (req : Request) → is_refused_entry (normalize_path req.path) ≡ true → put req ≡ forbidden
unfolding put
put-forbidden req r = rw r refl

mkcol-forbidden :
    (req : Request) → is_refused_entry (normalize_path req.path) ≡ true → mkcol req ≡ forbidden
unfolding mkcol
mkcol-forbidden req r = rw r refl

propfind-forbidden :
    (req : Request) → is_refused (normalize_path req.path) ≡ true → propfind req ≡ forbidden
unfolding propfind
propfind-forbidden req r = rw r refl

delete-forbidden : (path : Bytes) → is_refused_entry path ≡ true → delete path ≡ forbidden
unfolding delete
delete-forbidden path r = rw r refl

transfer-forbidden :
    (req : Request)
    → (is_refused_entry (normalize_path req.path)
        || is_refused_entry (destination_path req.headers))
      ≡ true
    → transfer req ≡ forbidden
unfolding transfer
transfer-forbidden req r = rw r refl

source-refused :
    (req : Request)
    → HiddenEntry req.path
    → (is_refused_entry (normalize_path req.path)
        || is_refused_entry (destination_path req.headers))
      ≡ true
source-refused req h =
    ap (λ (b : Bool). b || is_refused_entry (destination_path req.headers))
      (HiddenEntry-refused req.path h)

destination-refused :
    (req : Request)
    → HiddenDestination req.headers
    → (is_refused_entry (normalize_path req.path)
        || is_refused_entry (destination_path req.headers))
      ≡ true
destination-refused req h =
    or-true (is_refused_entry (normalize_path req.path)) _ (HiddenDestination-refused req.headers h)

-- Past the test of a path that is not empty.
past : (b : Bool) (x : Program Reply) {y : Program Reply} → b ≡ false → (if b then x else y) ≡ y
past b x h = rw h refl

-- The request with another method.
abbrev with_method : Request → Bytes → Request
with_method req m = record req { method = m }

handle-method :
    (page version : Bytes) (req : Request) (m : Bytes)
    → is_empty req.path ≡ false
    → Refused req.path req.headers m
    → handle page version (with_method req m) ≡ forbidden
unfolding handle handle_change bytes_eq
handle-method page version req m h (put_refused r) =
    past _ _ h ∙ put-forbidden (with_method req m) (HiddenEntry-refused req.path r)
handle-method page version req m h (mkcol_refused r) =
    past _ _ h ∙ mkcol-forbidden (with_method req m) (HiddenEntry-refused req.path r)
handle-method page version req m h (delete_refused r) =
    past _ _ h ∙ delete-forbidden req.path (PlainHidden-refused req.path r)
handle-method page version req m h (propfind_refused r) =
    past _ _ h ∙ propfind-forbidden (with_method req m) (Hidden-refused req.path r)
handle-method page version req m h (move_refused r) =
    past _ _ h ∙ transfer-forbidden (with_method req m) (source-refused req r)
handle-method page version req m h (copy_refused r) =
    past _ _ h ∙ transfer-forbidden (with_method req m) (source-refused req r)
handle-method page version req m h (move_onto_refused r) =
    past _ _ h ∙ transfer-forbidden (with_method req m) (destination-refused req r)
handle-method page version req m h (copy_onto_refused r) =
    past _ _ h ∙ transfer-forbidden (with_method req m) (destination-refused req r)

-- A WebDAV request whose path is not empty is answered 403, and storage is not asked, if the decoded path has a
-- segment that begins with a dot, as `..` does, or is the name of a protected folder, or, but for PROPFIND,
-- if it has no segment; so is a MOVE or COPY without a `Destination` or with one whose decoded path is
-- such, given as a path or behind a scheme and a host. For DELETE the path is taken undecoded.
pub handle-Refused :
    (page version : Bytes) (req : Request)
    → is_empty req.path ≡ false
    → Refused req.path req.headers req.method
    → handle page version req ≡ forbidden
handle-Refused page version req h r = handle-method page version req req.method h r
