-- ===== src/FileTransfer/Copy/Reach.antt =====
-- Which files a copy by src/CrossPointWebServer.cpp can reach.
use crosspoint_simulator.Prelude.{Bool, Option, none, some, All}
use crosspoint_simulator.FileTransfer.Path.Segments.{NoSlash}
use crosspoint_simulator.FileTransfer.Storage.{
  Entry, Opened, Call, Answer, Program, done, ask, exists, open_at, make_dir, remove_file,
  remove_dir, rename_to, copy_to, write_to, begin_upload, end_upload,
}
use crosspoint_simulator.FileTransfer.Routes.Calls.{AllowedCall}

-- The names that storage lists are those of single files: they hold no slash.
abbrev pub Plain : Entry → Type 0
Plain e = NoSlash e.name

abbrev pub Listed : Option Opened → Type 0
Listed none = Unit
Listed (some o) = All Plain o.entries

abbrev pub Named : (c : Call) → Answer c → Type 0
Named (open_at p) found = Listed found
Named (exists p) a = Unit
Named (make_dir p) a = Unit
Named (remove_file p) a = Unit
Named (remove_dir p) a = Unit
Named (rename_to p q) a = Unit
Named (copy_to p q) a = Unit
Named (write_to p bytes) a = Unit
Named (begin_upload name total) a = Unit
Named (end_upload ok name size) a = Unit

-- Each call of every run is allowed, whatever is answered with such names.
unfoldable pub Within : Program Bool → Type 0
Within (done ok) = Unit
Within (ask c k) = AllowedCall c × ((a : Answer c) → Named c a → Within (k a))
