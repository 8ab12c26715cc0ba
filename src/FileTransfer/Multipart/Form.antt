-- ===== src/FileTransfer/Multipart/Form.antt =====
-- Which file `parseMultipartFile` of src/CrossPointWebServer.cpp takes from a form.
use crosspoint_simulator.Prelude.{
  ℕ, zero, suc, ◌+◌, ◌≤◌, ◌<◌, ◌≡◌, ◌∙◌, refl, ap, ap₂, List, [], ◌∷◌, ◌++◌, length-append, Option,
  none, some, arith, if◌then◌else◌, length, take, drop, All, is_empty, Bytes, ◌>>=◌, codes, find,
  starts_with, Free, find-Free, take-append, drop-append, starts_with-prefix, drop-add,
}
use crosspoint_simulator.WebSocket.Handshake.{Headers, header, blank_line, crlf}
use crosspoint_simulator.FileTransfer.Path.{basename_of}
use crosspoint_simulator.FileTransfer.Multipart.{
  marker, multipart_boundary, file_marker, quote, file_of, part_of, find_file, parse_multipart_file,
  chosen, content_of, at_boundary, boundary_in, boundary_behind,
}

-- A part of a form: its header lines and its content.
abbrev pub Part : Type 0
Part = Bytes × Bytes

-- The lines hold no blank line, and the content no line that begins with the boundary.
abbrev pub FramedPart : Bytes → Part → Type 0
FramedPart boundary (lines, content) = Free blank_line lines × Free (crlf ++ boundary) content

abbrev pub IsField : Part → Type 0
IsField (lines, content) = find file_marker lines ≡ none

-- A part behind its boundary, and what follows it.
abbrev pub part_text : Part → Bytes → Bytes
part_text (lines, content) rest = crlf ++ (lines ++ (blank_line ++ (content ++ (crlf ++ rest))))

-- The fields behind a boundary, each in front of another boundary, and the last part.
abbrev pub form_tail : Bytes → List Part → Bytes → Bytes
form_tail boundary [] last = last
form_tail boundary (p ∷ ps) last = part_text p (boundary ++ form_tail boundary ps last)

-- The header lines of a part with a file.
abbrev pub file_lines : Bytes → Bytes → Bytes → Bytes
file_lines before name after = before ++ (file_marker ++ (name ++ (quote ++ after)))

part_of-text :
    (next : Bytes → Option (Bytes × Bytes)) (boundary lines content rest : Bytes)
    → FramedPart boundary (lines, content)
    → part_of next boundary (lines ++ (blank_line ++ (content ++ (crlf ++ (boundary ++ rest)))))
      ≡ chosen next lines content (crlf ++ (boundary ++ rest)) (find file_marker lines)
part_of-text next boundary lines content rest h =
    let after = crlf ++ (boundary ++ rest) in
    let behind_lines = blank_line ++ (content ++ after) in
    let whole = lines ++ behind_lines in
    ap (λ o. o >>= λ e. content_of next boundary (take e whole) (drop (e + 4) whole))
      (find-Free 13 (10 ∷ 13 ∷ 10 ∷ []) lines (content ++ after) h.0)
    ∙ ap₂ (content_of next boundary) (take-append lines behind_lines)
        (drop-add 4 lines behind_lines)
    ∙ ap
        (λ o. o >>= λ n.
          chosen next lines (take n (content ++ after)) (drop n (content ++ after))
            (find file_marker lines))
        (find-Free 13 (10 ∷ boundary) content rest h.1)
    ∙ ap₂ (λ c a. chosen next lines c a (find file_marker lines)) (take-append content after)
        (drop-append content after)

-- A round of the loop at a boundary with a part and another boundary behind it.
find_file-part :
    (fuel : ℕ) (front boundary rest : Bytes) (p : Part)
    → find boundary (front ++ (boundary ++ part_text p (boundary ++ rest))) ≡ some (length front)
    → FramedPart boundary p
    → find_file (suc fuel) boundary (front ++ (boundary ++ part_text p (boundary ++ rest)))
      ≡ chosen (find_file fuel boundary) p.0 p.1 (crlf ++ (boundary ++ rest)) (find file_marker p.0)
unfolding find_file starts_with
find_file-part fuel front boundary rest (lines, content) first h =
    let next = find_file fuel boundary in
    let part = part_text (lines, content) (boundary ++ rest) in
    let whole = front ++ (boundary ++ part) in
    ap (λ o. o >>= λ start. at_boundary next boundary (drop (start + length boundary) whole)) first
    ∙ ap (at_boundary next boundary)
        (drop-add (length boundary) front (boundary ++ part) ∙ drop-append boundary part)
    ∙ part_of-text next boundary lines content rest h

-- What stands in front of a boundary and does not hold it.
abbrev Located : Bytes → Bytes → Type 0
Located boundary front =
    (rest : Bytes) → find boundary (front ++ (boundary ++ rest)) ≡ some (length front)

Located-nothing : (token : Bytes) → Located (codes "--" ++ token) []
unfolding find starts_with
Located-nothing token rest = rw (starts_with-prefix token rest) refl

-- A boundary is two dashes and more, so it does not begin in a line end.
Located-crlf : (token : Bytes) → Located (codes "--" ++ token) crlf
unfolding find starts_with
Located-crlf token rest = rw (starts_with-prefix token rest) refl

file_of-value :
    (name after content : Bytes)
    → Free quote name
    → file_of (name ++ (quote ++ after)) content ≡ some (basename_of name, content)
unfolding file_of
file_of-value name after content k =
    let value = name ++ (quote ++ after) in
    ap (λ o. o >>= λ e. some (basename_of (take e value), content)) (find-Free b'"' [] name after k)
    ∙ ap (λ n. some (basename_of n, content)) (take-append name (quote ++ after))

chosen-file :
    (next : Bytes → Option (Bytes × Bytes)) (before name after content rest : Bytes)
    → Free file_marker before
    → Free quote name
    → chosen next
        (file_lines before name after)
        content
        rest
        (find file_marker (file_lines before name after))
      ≡ some (basename_of name, content)
chosen-file next before name after content rest h k =
    let value = name ++ (quote ++ after) in
    let lines = file_lines before name after in
    ap (chosen next lines content rest) (find-Free b'f' (codes "ilename=\"") before value h)
    ∙ ap (λ v. file_of v content) (drop-add 10 before (file_marker ++ value))
    ∙ file_of-value name after content k

-- A file's part: the text of its header lines in front of the file name and behind it, and its
-- bytes.
abbrev FramedFile : Bytes → Bytes → Bytes → Bytes → Bytes → Type 0
FramedFile boundary before name after content =
    FramedPart boundary (file_lines before name after, content)
    × Free file_marker before
    × Free quote name

find_file-form :
    (fuel : ℕ) (token front : Bytes) (fs : List Part) (before name after content rest : Bytes)
    → length fs < fuel
    → Located (codes "--" ++ token) front
    → All (FramedPart (codes "--" ++ token)) fs
    → All IsField fs
    → FramedFile (codes "--" ++ token) before name after content
    → (let boundary = codes "--" ++ token in
        find_file fuel boundary (
          front
          ++ (boundary
              ++ form_tail boundary fs
                  (part_text (file_lines before name after, content) (boundary ++ rest)))))
      ≡ some (basename_of name, content)
find_file-form zero token front fs before name after content rest l f hs ks h = absurd (omega arith)
find_file-form (suc fuel) token front [] before name after content rest l f hs ks h =
    let boundary = codes "--" ++ token in
    let file : Part = (file_lines before name after, content) in
    find_file-part fuel front boundary rest file (f (part_text file (boundary ++ rest))) h.0
    ∙ chosen-file (find_file fuel boundary) before name after content (crlf ++ (boundary ++ rest))
        h.1 h.2
find_file-form (suc fuel) token front (p ∷ ps) before name after content rest l f hs ks h =
    let boundary = codes "--" ++ token in
    let file : Part = (file_lines before name after, content) in
    let tail = form_tail boundary ps (part_text file (boundary ++ rest)) in
    find_file-part fuel front boundary tail p (f (part_text p (boundary ++ tail))) hs.0
    ∙ ap (chosen (find_file fuel boundary) p.0 p.1 (crlf ++ (boundary ++ tail))) ks.0
    ∙ find_file-form fuel token crlf ps before name after content rest (omega arith)
        (Located-crlf token) hs.1 ks.1 h

length-part_text : (p : Part) (rest : Bytes) → 2 + length rest ≤ length (part_text p rest)
length-part_text (lines, content) rest =
    let behind = content ++ (crlf ++ rest) in
    omega (arith, length-append lines (blank_line ++ behind), length-append content (crlf ++ rest))

length-form_tail :
    (boundary : Bytes) (fs : List Part) (last : Bytes)
    → length fs ≤ length (form_tail boundary fs last)
length-form_tail boundary [] last = omega arith
length-form_tail boundary (p ∷ ps) last =
    let tail = form_tail boundary ps last in
    omega (
      arith,
      length-part_text p (boundary ++ tail),
      length-append boundary tail,
      length-form_tail boundary ps last,
    )

-- The boundary that a content type names.
multipart_boundary-token :
    (hs : Headers) (kind token : Bytes)
    → header (codes "content-type") hs ≡ some (kind ++ (marker ++ token))
    → Free marker kind
    → multipart_boundary hs ≡ codes "--" ++ token
unfolding multipart_boundary
multipart_boundary-token hs kind token e h =
    let value = kind ++ (marker ++ token) in
    ap boundary_in e
    ∙ ap (boundary_behind value) (find-Free b'b' (codes "oundary=") kind token h)
    ∙ ap (λ (t : Bytes). codes "--" ++ t) (drop-add 9 kind (marker ++ token))

-- A form with a file: the content type in front of its boundary's parameter and the boundary, the
-- fields in front of the file, the header lines of the file's part in front of its name and behind
-- it, the bytes of the file, and what comes behind the boundary at their end.
pub record Form : Type 0 where
  pub kind : Bytes
  pub token : Bytes
  pub fields : List Part
  pub before : Bytes
  pub name : Bytes
  pub after : Bytes
  pub content : Bytes
  pub rest : Bytes

abbrev pub boundary_of : Form → Bytes
boundary_of f = codes "--" ++ f.token

abbrev pub file_part : Form → Part
file_part f = (file_lines f.before f.name f.after, f.content)

abbrev pub form_text : Form → Bytes
form_text f =
    boundary_of f
    ++ form_tail (boundary_of f) f.fields (part_text (file_part f) (boundary_of f ++ f.rest))

-- What keeps the parts apart.
abbrev pub FramedForm : Form → Type 0
FramedForm f =
    Free marker f.kind
    × All (FramedPart (boundary_of f)) f.fields
    × All IsField f.fields
    × FramedFile (boundary_of f) f.before f.name f.after f.content

-- From a form with a file, the name of the file without its folders and the bytes of the file are
-- taken, whatever they are and whatever fields stand in front of it: no content holds a line that
-- begins with the boundary, no header lines a blank line, and no field's lines `filename="`.
pub parse_multipart_file-form :
    (hs : Headers) (f : Form)
    → header (codes "content-type") hs ≡ some (f.kind ++ (marker ++ f.token))
    → FramedForm f
    → parse_multipart_file hs (form_text f) ≡ some (basename_of f.name, f.content)
unfolding parse_multipart_file
parse_multipart_file-form hs f e h =
    let body = form_text f in
    let last = part_text (file_part f) (boundary_of f ++ f.rest) in
    ap (λ b. if is_empty b then none else find_file (length body + 1) b body)
      (multipart_boundary-token hs f.kind f.token e h.0)
    ∙ find_file-form (length body + 1) f.token [] f.fields f.before f.name f.after f.content f.rest
        (omega (
          arith,
          length-form_tail (boundary_of f) f.fields last,
          length-append (boundary_of f) (form_tail (boundary_of f) f.fields last),
        ))
        (Located-nothing f.token) h.1 h.2 h.3
