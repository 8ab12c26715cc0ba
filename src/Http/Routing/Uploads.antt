-- ===== src/Http/Routing/Uploads.antt =====
-- What the upload handler of a route of src/WebServer.cpp is given.
use crosspoint_simulator.Prelude.{◌≡◌, Bool, List, ◌++◌, map, none, some, All, Bytes, codes, Free}
use crosspoint_simulator.Http.Multipart.{Part}
use crosspoint_simulator.Http.Multipart.Parts.{IsBoundary, boundary_text, parts_text}
use crosspoint_simulator.Http.Multipart.Fields.{FormPart, IsFormPart, raw_part}
use crosspoint_simulator.Http.Routing.{Dispatched}
use crosspoint_simulator.Http.Routing.Collected.{fields_of, collect, SmallWrite, files_of}

-- What a form gives the handlers: its files, then one call of the route's other handler, which is the
-- last.
abbrev pub Delivers : List Part → Dispatched → Type 0
Delivers ps d =
    (collect none d.steps ≡ some (record { files = files_of ps; handled = 1 }))
    × All SmallWrite d.steps
    × (d.added ≡ fields_of ps)

-- A form with a boundary: the content type in front of it, the boundary and whether it is in quotes, the
-- parts, and what is behind the last boundary.
pub record Form : Type 0 where
  pub kind : Bytes
  pub token : Bytes
  pub in_quotes : Bool
  pub parts : List FormPart
  pub after : Bytes

abbrev pub content_type_of : Form → Bytes
content_type_of f = f.kind ++ (codes "boundary=" ++ boundary_text f.in_quotes f.token)

abbrev pub body_of : Form → Bytes
body_of f =
    let boundary = codes "--" ++ f.token in
    boundary ++ parts_text boundary (map raw_part f.parts) f.after

abbrev pub FramedForm : Form → Type 0
FramedForm f =
    Free (codes "boundary=") f.kind
    × IsBoundary f.in_quotes f.token
    × All (IsFormPart (codes "--" ++ f.token)) f.parts
