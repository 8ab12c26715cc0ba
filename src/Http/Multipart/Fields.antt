-- ===== src/Http/Multipart/Fields.antt =====
-- Forms for `parseMultipart` of src/WebServer.cpp, by the names and file names of their parts.
use crosspoint_simulator.Prelude.{
  ℕ, length, drop-append, ◌≡◌, ◌∙◌, refl, ap, ap₂, sym, Bool, List, [], ◌∷◌, ◌++◌, append_assoc,
  map, Option, none, some, All, is_empty, Bytes, codes, find, Free, find-Free, take-append,
  drop-add, if◌then◌else◌,
}
use crosspoint_simulator.Http.Multipart.{Part, header_param, value_at, up_to, parse_multipart}
use crosspoint_simulator.Http.Multipart.Parts.{
  RawPart, FramedPart, parts_text, named, boundary_text, IsBoundary, parse_multipart-parts,
}

-- A part of a form: what is in front of its `name` parameter, the name, the file name if it has one, the
-- header lines behind these, and the content.
pub record FormPart : Type 0 where
  pub front : Bytes
  pub name : Bytes
  pub filename : Option Bytes
  pub behind : Bytes
  pub content : Bytes

-- The text behind the name.
abbrev pub file_text : Option Bytes → Bytes → Bytes
file_text none behind = codes "\"" ++ behind
file_text (some filename) behind =
    codes "\"; " ++ (codes "filename=\"" ++ (filename ++ (codes "\"" ++ behind)))

abbrev pub lines_of : FormPart → Bytes
lines_of p = p.front ++ (codes "name=\"" ++ (p.name ++ file_text p.filename p.behind))

abbrev pub raw_part : FormPart → RawPart
raw_part p = (lines_of p, p.content)

-- Nothing that reads like the start of a file name stands in front of it, or anywhere if there is none;
-- and no quote in it.
abbrev pub NamesFile : Bytes → Option Bytes → Bytes → Type 0
NamesFile front none behind = find (codes "filename=\"") (front ++ file_text none behind) ≡ none
NamesFile front (some filename) behind =
    Free (codes "filename=\"") (front ++ codes "\"; ") × Free (codes "\"") filename

-- The name is the first parameter that reads like one and holds no quote: a file name comes behind it. The
-- lines hold no blank line, and neither the content nor the line end behind it the boundary.
abbrev pub IsFormPart : Bytes → FormPart → Type 0
IsFormPart boundary p =
    Free (codes "name=\"") p.front
    × Free (codes "\"") p.name
    × NamesFile (p.front ++ (codes "name=\"" ++ p.name)) p.filename p.behind
    × FramedPart boundary (raw_part p)

abbrev pub or_empty : Option Bytes → Bytes
or_empty none = []
or_empty (some filename) = filename

-- The parts with a name that is not empty.
abbrev pub parts_of : List FormPart → List Part
parts_of [] = []
parts_of (p ∷ ps) =
    if is_empty p.name
    then parts_of ps
    else record { name = p.name; filename = or_empty p.filename; bytes = p.content } ∷ parts_of ps

-- A parameter whose value ends at a quote.
header_param-value :
    (k : ℕ) (ks front val rest : Bytes)
    → Free (k ∷ ks ++ codes "=\"") front
    → Free (codes "\"") val
    → header_param (front ++ ((k ∷ ks ++ codes "=\"") ++ (val ++ (codes "\"" ++ rest)))) (k ∷ ks)
      ≡ val
unfolding header_param
header_param-value k ks front val rest f q =
    let needle = k ∷ ks ++ codes "=\"" in
    let tail = val ++ (codes "\"" ++ rest) in
    let header = front ++ (needle ++ tail) in
    ap (value_at header (length needle)) (find-Free k (ks ++ codes "=\"") front tail f)
    ∙ ap (λ (v : Bytes). up_to v (find (codes "\"") v))
        (drop-add (length needle) front (needle ++ tail) ∙ drop-append needle tail)
    ∙ ap (up_to tail) (find-Free b'"' [] val rest q)
    ∙ take-append val (codes "\"" ++ rest)

name_lem :
    (front name : Bytes) (filename : Option Bytes) (behind : Bytes)
    → Free (codes "name=\"") front
    → Free (codes "\"") name
    → header_param
        (front ++ (codes "name=\"" ++ (name ++ file_text filename behind)))
        (codes "name")
      ≡ name
name_lem front name none behind f q = header_param-value b'n' (codes "ame") front name behind f q
name_lem front name (some filename) behind f q =
    header_param-value b'n' (codes "ame") front name
      (codes "; " ++ (codes "filename=\"" ++ (filename ++ (codes "\"" ++ behind)))) f q

filename_lem :
    (front : Bytes) (filename : Option Bytes) (behind : Bytes)
    → NamesFile front filename behind
    → header_param (front ++ file_text filename behind) (codes "filename") ≡ or_empty filename
unfolding header_param
filename_lem front none behind h = ap (value_at (front ++ file_text none behind) 10) h
filename_lem front (some filename) behind h =
    let text = codes "filename=\"" ++ (filename ++ (codes "\"" ++ behind)) in
    ap (λ (l : Bytes). header_param l (codes "filename"))
      (sym (append_assoc front (codes "\"; ") text))
    ∙ header_param-value b'f' (codes "ilename") (front ++ codes "\"; ") filename behind h.0 h.1

named-parts_of :
    (boundary : Bytes) (ps : List FormPart)
    → All (IsFormPart boundary) ps
    → named (map raw_part ps) ≡ parts_of ps
named-parts_of boundary [] h = refl
named-parts_of boundary (p ∷ ps) h =
    let text = file_text p.filename p.behind in
    let named_file =
      ap (λ (l : Bytes). header_param l (codes "filename"))
        (sym (append_assoc p.front (codes "name=\"" ++ p.name) text))
      ∙ filename_lem (p.front ++ (codes "name=\"" ++ p.name)) p.filename p.behind h.0.2 in
    let part = λ (n f : Bytes) (rest : List Part).
      if is_empty n then rest else record { name = n; filename = f; bytes = p.content } ∷ rest in
    ap₂ (λ (n f : Bytes). part n f (named (map raw_part ps)))
      (name_lem p.front p.name p.filename p.behind h.0.0 h.0.1) named_file
    ∙ ap (part p.name (or_empty p.filename)) (named-parts_of boundary ps h.1)

All-FramedPart :
    (boundary : Bytes) (ps : List FormPart)
    → All (IsFormPart boundary) ps
    → All (FramedPart boundary) (map raw_part ps)
All-FramedPart boundary [] h = tt
All-FramedPart boundary (p ∷ ps) h = (h.0.3, All-FramedPart boundary ps h.1)

-- From a form, the parts with a name that is not empty are taken in order, each with its name, with its file
-- name if it has one behind the name, and with its bytes, whatever they are, without the line end in
-- front of the boundary; the boundary may be in quotes. No header lines hold a blank line and no content
-- the boundary; no name or file name holds a quote, and nothing in front of either reads like it.
pub parse_multipart-form :
    (kind token : Bytes) (in_quotes : Bool) (ps : List FormPart) (after : Bytes)
    → Free (codes "boundary=") kind
    → IsBoundary in_quotes token
    → All (IsFormPart (codes "--" ++ token)) ps
    → (let boundary = codes "--" ++ token in
        parse_multipart
          (kind ++ (codes "boundary=" ++ boundary_text in_quotes token))
          (boundary ++ parts_text boundary (map raw_part ps) after))
      ≡ parts_of ps
parse_multipart-form kind token in_quotes ps after f b h =
    let boundary = codes "--" ++ token in
    parse_multipart-parts kind token in_quotes (map raw_part ps) after f b
      (All-FramedPart boundary ps h)
    ∙ named-parts_of boundary ps h
