-- ===== src/Http/Multipart/Parts.antt =====
-- Which parts `parseMultipart` of src/WebServer.cpp takes from a form.
use crosspoint_simulator.Prelude.{
  ℕ, zero, suc, ◌+◌, ◌-◌, ◌≤◌, ◌<◌, ◌≡◌, ◌∙◌, refl, ap, ap₂, sym, Bool, true, false, ◌&&◌, List, [],
  ◌∷◌, ◌++◌, append_assoc, length-append, none, arith, ◌==◌, if◌then◌else◌, length, take, drop, All,
  Bytes, codes, find, starts_with, Free, find-Free, take-append, drop-append, drop-add,
  starts_with-prefix, le→leb, find-prefix, find-none-cons,
}
use crosspoint_simulator.WebSocket.Handshake.{blank_line, crlf}
use crosspoint_simulator.Http.Multipart.{
  Part, unquoted, data_before, add_part, part_at, headed, parts_from, first_boundary, with_boundary,
  boundary_at, parse_multipart, or_all,
}

-- The bytes of a part of a form: its header lines and its content.
abbrev pub RawPart : Type 0
RawPart = Bytes × Bytes

-- The lines hold no blank line, and neither the content nor the line end behind it the boundary.
abbrev pub FramedPart : Bytes → RawPart → Type 0
FramedPart boundary (lines, content) = Free blank_line lines × Free boundary (content ++ crlf)

-- The parts behind a boundary, each in front of another one, and what follows the two dashes behind
-- the last.
abbrev pub parts_text : Bytes → List RawPart → Bytes → Bytes
parts_text boundary [] after = codes "--" ++ after
parts_text boundary ((lines, content) ∷ ps) after =
    crlf
    ++ (lines ++ (blank_line ++ (content ++ (crlf ++ (boundary ++ parts_text boundary ps after)))))

-- The parts that the code makes of the lines.
abbrev pub named : List RawPart → List Part
named [] = []
named ((lines, content) ∷ ps) = add_part lines content (named ps)

-- Behind the content the line end is left away.
data_before-content :
    (content rest : Bytes)
    → data_before (length (content ++ crlf)) (content ++ (crlf ++ rest)) ≡ content
data_before-content content rest =
    let whole = content ++ (crlf ++ rest) in
    let n = length (content ++ crlf) in
    let size = length-append content crlf in
    let same : n - 2 ≡ length content = omega (arith, size) in
    let line_end : starts_with crlf (drop (n - 2) whole) ≡ true =
      ap (λ m. starts_with crlf (drop m whole)) same
      ∙ ap (starts_with crlf) (drop-append content (crlf ++ rest))
      ∙ starts_with-prefix crlf rest in
    ap (λ b. if b then take (n - 2) whole else take n whole)
      (ap₂ ◌&&◌ (le→leb 2 n (omega (arith, size))) line_end)
    ∙ ap (λ m. take m whole) same
    ∙ take-append content (crlf ++ rest)

part_at-content :
    (later : Bytes → List Part) (dashes lines content rest : Bytes)
    → (let boundary = codes "--" ++ dashes in
        Free boundary (content ++ crlf)
        → (let whole = content ++ (crlf ++ (boundary ++ rest)) in
            part_at later boundary lines whole (find boundary whole)
            ≡ add_part lines content (later rest)))
part_at-content later dashes lines content rest h =
    let boundary = codes "--" ++ dashes in
    let front = content ++ crlf in
    let whole = content ++ (crlf ++ (boundary ++ rest)) in
    let same : front ++ (boundary ++ rest) ≡ whole = append_assoc content crlf (boundary ++ rest) in
    ap (part_at later boundary lines whole)
      (ap (find boundary) (sym same) ∙ find-Free b'-' (b'-' ∷ dashes) front rest h)
    ∙ ap₂ (λ c l. add_part lines c (later l)) (data_before-content content (boundary ++ rest))
        (ap (λ w. drop (length boundary) (drop (length front) w)) (sym same)
          ∙ ap (drop (length boundary)) (drop-append front (boundary ++ rest))
          ∙ drop-append boundary rest)

parts_from-text :
    (fuel : ℕ) (token : Bytes) (ps : List RawPart) (after : Bytes)
    → length ps < fuel
    → All (FramedPart (codes "--" ++ token)) ps
    → parts_from fuel (codes "--" ++ token) (parts_text (codes "--" ++ token) ps after) ≡ named ps
unfolding parts_from starts_with
parts_from-text zero token ps after l h = absurd (omega arith)
parts_from-text (suc fuel) token [] after l h = refl
parts_from-text (suc fuel) token ((lines, content) ∷ ps) after l h =
    let boundary = codes "--" ++ token in
    let later = parts_from fuel boundary in
    let content_on = content ++ (crlf ++ (boundary ++ parts_text boundary ps after)) in
    let part = lines ++ (blank_line ++ content_on) in
    ap (headed later boundary part) (find-Free 13 (10 ∷ 13 ∷ 10 ∷ []) lines content_on h.0.0)
    ∙ ap₂ (λ hs c. part_at later boundary hs c (find boundary c))
        (take-append lines (blank_line ++ content_on)) (drop-add 4 lines (blank_line ++ content_on))
    ∙ part_at-content later token lines content (parts_text boundary ps after) h.0.1
    ∙ ap (add_part lines content) (parts_from-text fuel token ps after (omega arith) h.1)

length-parts_text :
    (boundary : Bytes) (ps : List RawPart) (after : Bytes)
    → length ps ≤ length (parts_text boundary ps after)
length-parts_text boundary [] after = omega arith
length-parts_text boundary ((lines, content) ∷ ps) after =
    let tail = parts_text boundary ps after in
    omega (
      arith,
      length-append lines (blank_line ++ (content ++ (crlf ++ (boundary ++ tail)))),
      length-append content (crlf ++ (boundary ++ tail)),
      length-append boundary tail,
      length-parts_text boundary ps after,
    )

with_boundary-text :
    (token : Bytes) (ps : List RawPart) (after : Bytes)
    → All (FramedPart (codes "--" ++ token)) ps
    → (let boundary = codes "--" ++ token in
        with_boundary boundary (boundary ++ parts_text boundary ps after) ≡ named ps)
with_boundary-text token ps after h =
    let boundary = codes "--" ++ token in
    let tail = parts_text boundary ps after in
    let body = boundary ++ tail in
    ap (first_boundary boundary body) (find-prefix b'-' (b'-' ∷ token) tail)
    ∙ ap (parts_from (length body + 1) boundary) (
        ap (λ k. drop k body) {x = 0 + length boundary} {y = length boundary} (omega arith)
        ∙ drop-append boundary tail)
    ∙ parts_from-text (length body + 1) token ps after
        (omega (arith, length-append boundary tail, length-parts_text boundary ps after)) h

-- The ways to name a boundary: in quotes, or as it is.
abbrev pub boundary_text : Bool → Bytes → Bytes
boundary_text true token = codes "\"" ++ (token ++ codes "\"")
boundary_text false token = token

-- A boundary in quotes has no quote; one without has no semicolon and does not begin with a quote.
abbrev pub IsBoundary : Bool → Bytes → Type 0
IsBoundary true token = Free (codes "\"") token
IsBoundary false token = (find (codes ";") token ≡ none) × (find (codes "\"") token ≡ none)

not_quote : (c : ℕ) (cs : Bytes) → starts_with (codes "\"") (c ∷ cs) ≡ false → (c == b'"') ≡ false
unfolding starts_with
not_quote c cs h = ground arith

unquoted-boundary_text :
    (in_quotes : Bool) (token : Bytes)
    → IsBoundary in_quotes token
    → unquoted (boundary_text in_quotes token) ≡ token
unquoted-boundary_text true token h =
    ap (or_all (token ++ codes "\"")) (find-Free b'"' [] token [] h)
    ∙ take-append token (codes "\"")
unquoted-boundary_text false [] h = refl
unquoted-boundary_text false (c ∷ cs) h =
    let plain = not_quote c cs (find-none-cons (codes "\"") c cs h.1).0 in
    rw plain (ap (or_all (c ∷ cs)) h.0)

-- The parts of a form, by what the code makes of their header lines.
pub parse_multipart-parts :
    (kind token : Bytes) (in_quotes : Bool) (ps : List RawPart) (after : Bytes)
    → Free (codes "boundary=") kind
    → IsBoundary in_quotes token
    → All (FramedPart (codes "--" ++ token)) ps
    → (let boundary = codes "--" ++ token in
        parse_multipart
          (kind ++ (codes "boundary=" ++ boundary_text in_quotes token))
          (boundary ++ parts_text boundary ps after))
      ≡ named ps
unfolding parse_multipart
parse_multipart-parts kind token in_quotes ps after f b h =
    let boundary = codes "--" ++ token in
    let text = boundary_text in_quotes token in
    let body = boundary ++ parts_text boundary ps after in
    ap (boundary_at (kind ++ (codes "boundary=" ++ text)) body)
      (find-Free b'b' (codes "oundary=") kind text f)
    ∙ ap (λ (t : Bytes). with_boundary (codes "--" ++ unquoted t) body)
        (drop-add 9 kind (codes "boundary=" ++ text))
    ∙ ap (λ (t : Bytes). with_boundary (codes "--" ++ t) body)
        (unquoted-boundary_text in_quotes token b)
    ∙ with_boundary-text token ps after h
