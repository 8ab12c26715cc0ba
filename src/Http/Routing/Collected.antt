-- ===== src/Http/Routing/Collected.antt =====
-- What a handler that collects files makes of the calls of an upload handler in src/WebServer.cpp.
use crosspoint_simulator.Prelude.{
  ℕ, ◌≡◌, refl, ◌∙◌, ap, sym, List, [], ◌∷◌, ◌++◌, append_assoc, append-nil, map, flatten, Option,
  none, some, arith, if◌then◌else◌, length, All, is_empty, Bytes, if-cases, if-both, All-append,
}
use crosspoint_simulator.Http.Body.{chunks}
use crosspoint_simulator.Http.Body.Streaming.{Chunk, chunks-Chunk, flatten-chunks}
use crosspoint_simulator.Http.Response.{c_string}
use crosspoint_simulator.Http.Multipart.{Part}
use crosspoint_simulator.Http.Routing.{
  upload_start, upload_write, upload_end, Step, upload_handler, route_handler, part_steps,
  file_steps, field_args,
}

-- A file as the handler collects it: its name, its file name, its total size and its bytes.
pub record File : Type 0 where
  pub name : Bytes
  pub filename : Bytes
  pub total : ℕ
  pub bytes : Bytes

-- What a handler that collects files has after the calls: the files that ended, and how often the route's
-- other handler ran. A write outside a file, an end without a start, a call after that of the other
-- handler, or any call but these is an error.
pub record Collected : Type 0 where
  pub files : List File
  pub handled : ℕ

abbrev pub add_file : File → Option Collected → Option Collected
add_file f none = none
add_file f (some c) = some (record c { files = f ∷ c.files })

unfoldable pub collect : Option File → List Step → Option Collected
collect none [] = some (record { files = []; handled = 0 })
collect (some f) [] = none
collect none (upload_handler (upload_start name filename total) ∷ steps) =
    collect (some (record { name = name; filename = filename; total = total; bytes = [] })) steps
collect (some f) (upload_handler (upload_write bytes) ∷ steps) =
    collect (some (record f { bytes = f.bytes ++ bytes })) steps
collect (some f) (upload_handler upload_end ∷ steps) = add_file f (collect none steps)
collect none (route_handler ∷ []) = some (record { files = []; handled = 1 })
collect _ _ = none

-- The bytes of a write fit the handler's buffer.
abbrev pub SmallWrite : Step → Type 0
SmallWrite (upload_handler (upload_write bytes)) = Chunk bytes
SmallWrite _ = Unit

abbrev pub file_of : Part → File
file_of p = record {
  name = c_string p.name;
  filename = c_string p.filename;
  total = length p.bytes;
  bytes = p.bytes;
}

-- The parts with a file name.
abbrev pub files_of : List Part → List File
files_of [] = []
files_of (p ∷ ps) = if is_empty p.filename then files_of ps else file_of p ∷ files_of ps

-- The parts without one, as arguments.
abbrev pub fields_of : List Part → List (Bytes × Bytes)
fields_of [] = []
fields_of (p ∷ ps) = if is_empty p.filename then (p.name, p.bytes) ∷ fields_of ps else fields_of ps

pub field_args-fields_of : (ps : List Part) → field_args ps ≡ fields_of ps
unfolding field_args
field_args-fields_of [] = refl
field_args-fields_of (p ∷ ps) = rw (field_args-fields_of ps) refl

abbrev pub write_step : Bytes → Step
write_step bytes = upload_handler (upload_write bytes)

pub collect-writes :
    (f : File) (ws : List Bytes) (steps : List Step)
    → collect (some f) (map write_step ws ++ upload_handler upload_end ∷ steps)
      ≡ add_file (record f { bytes = f.bytes ++ flatten ws }) (collect none steps)
unfolding collect flatten
collect-writes f [] steps =
    ap (λ b. add_file (record f { bytes = b }) (collect none steps)) (sym (append-nil f.bytes))
collect-writes f (w ∷ ws) steps =
    collect-writes (record f { bytes = f.bytes ++ w }) ws steps
    ∙ ap (λ b. add_file (record f { bytes = b }) (collect none steps))
        (append_assoc f.bytes w (flatten ws))

pub collect-part :
    (p : Part) (steps : List Step)
    → collect none (part_steps p ++ steps) ≡ add_file (file_of p) (collect none steps)
unfolding collect part_steps
collect-part p steps =
    let start = record (file_of p) { bytes = [] } in
    let ws = chunks (length p.bytes) p.bytes in
    ap (collect (some start))
      (append_assoc (map write_step ws) (upload_handler upload_end ∷ []) steps)
    ∙ collect-writes start ws steps
    ∙ ap (λ b. add_file (record (file_of p) { bytes = b }) (collect none steps))
        (flatten-chunks (length p.bytes) p.bytes (omega arith))

pub collect-files :
    (ps : List Part) (steps : List Step) (c : Collected)
    → collect none steps ≡ some c
    → collect none (file_steps ps ++ steps) ≡ some (record c { files = files_of ps ++ c.files })
unfolding file_steps
collect-files [] steps c h = h
collect-files (p ∷ ps) steps c h =
    if-both
      (λ (front : List Step) (files : List File).
        collect none (front ++ steps) ≡ some (record c { files = files ++ c.files }))
      (is_empty p.filename) (λ _. collect-files ps steps c h)
      (λ _.
        ap (collect none) (append_assoc (part_steps p) (file_steps ps) steps)
        ∙ collect-part p (file_steps ps ++ steps)
        ∙ ap (add_file (file_of p)) (collect-files ps steps c h))

pub writes-SmallWrite : (ws : List Bytes) → All Chunk ws → All SmallWrite (map write_step ws)
writes-SmallWrite [] h = tt
writes-SmallWrite (w ∷ ws) h = (h.0, writes-SmallWrite ws h.1)

pub part_steps-SmallWrite : (p : Part) → All SmallWrite (part_steps p)
unfolding part_steps
part_steps-SmallWrite p =
    let ws = chunks (length p.bytes) p.bytes in
    (
      tt,
      All-append SmallWrite (map write_step ws) (upload_handler upload_end ∷ [])
          (writes-SmallWrite ws (chunks-Chunk (length p.bytes) p.bytes)) (tt, tt),
    )

pub file_steps-SmallWrite : (ps : List Part) → All SmallWrite (file_steps ps)
unfolding file_steps
file_steps-SmallWrite [] = tt
file_steps-SmallWrite (p ∷ ps) =
    if-cases (All SmallWrite) (is_empty p.filename) (λ _. file_steps-SmallWrite ps)
      (λ _.
        All-append SmallWrite (part_steps p) (file_steps ps) (part_steps-SmallWrite p)
          (file_steps-SmallWrite ps))
