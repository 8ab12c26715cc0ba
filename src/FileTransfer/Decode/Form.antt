-- ===== src/FileTransfer/Decode/Form.antt =====
-- What the handlers of src/CrossPointWebServer.cpp read from a query string or a form.
use crosspoint_simulator.Prelude.{
  ℕ, ◌+◌, ◌*◌, ◌<◌, ◌||◌, ◌≡◌, ◌∙◌, refl, ap, ap₂, Bool, true, false, List, [], ◌∷◌, ◌++◌, map,
  Option, none, some, arith, ◌==◌, if◌then◌else◌, all, All, Bytes, bytes_eq, find, take-append,
}
use crosspoint_simulator.Http.Url.{hex_value}
use crosspoint_simulator.Http.Url.Spelling.{
  Spelling, literal, plus, percent, hex_digit, spelled, value,
}
use crosspoint_simulator.Http.Url.Args.{
  Field, Framed, field_text, form_text, field_value, not_amp, find-name, drop-name, field-not_amp,
}
use crosspoint_simulator.WebSocket.Handshake.{Headers, header, assign}
use crosspoint_simulator.WebSocket.Handshake.Headers.{header-assign}
use crosspoint_simulator.FileTransfer.Decode.{
  hex_byte, decode_at, decode_from, url_decode, pieces, add_items, parse_query, assign_at, value_or,
  query_value, read_form_value,
}

hex_byte-digits :
    (u v : Bool) (hi lo : ℕ)
    → hi < 16
    → lo < 16
    → hex_byte (hex_digit u hi) (hex_digit v lo) ≡ some (hi * 16 + lo)
unfolding hex_byte hex_value
hex_byte-digits u v hi lo h k = ground arith

decode_at-literal :
    (c : ℕ) (rest : Bytes) → (c == b'%' || c == b'+') ≡ false → decode_at c rest ≡ (c, 0)
unfolding decode_at
decode_at-literal c [] h = ap (λ (b : ℕ). (b, 0)) (ground arith)
decode_at-literal c (a ∷ []) h = ap (λ (b : ℕ). (b, 0)) (ground arith)
decode_at-literal c (a ∷ b ∷ rest) h = ground arith

decode_at-plus : (rest : Bytes) → decode_at b'+' rest ≡ (b' ', 0)
unfolding decode_at
decode_at-plus [] = refl
decode_at-plus (a ∷ []) = refl
decode_at-plus (a ∷ b ∷ rest) = refl

-- Spelled bytes are decoded into the bytes, by this server too.
pub url_decode-spelled : (ss : List Spelling) → url_decode (spelled ss) ≡ map value ss
unfolding url_decode decode_from
url_decode-spelled [] = refl
url_decode-spelled (literal c h ∷ ss) =
    rw (decode_at-literal c (spelled ss) h) (ap (◌∷◌ c) (url_decode-spelled ss))
url_decode-spelled (plus ∷ ss) =
    rw (decode_at-plus (spelled ss)) (ap (◌∷◌ b' ') (url_decode-spelled ss))
url_decode-spelled (percent hi lo h k u v ∷ ss) =
    rw (hex_byte-digits u v hi lo h k) (ap (◌∷◌ (hi * 16 + lo)) (url_decode-spelled ss))

pieces-one : (item : Bytes) → all not_amp item ≡ true → pieces b'&' item ≡ item ∷ []
unfolding pieces
pieces-one [] h = refl
pieces-one (c ∷ item) h = ground (arith, pieces-one item)

pieces-more :
    (item rest : Bytes)
    → all not_amp item ≡ true
    → pieces b'&' (item ++ b'&' ∷ rest) ≡ item ∷ pieces b'&' rest
unfolding pieces
pieces-more [] rest h = refl
pieces-more (c ∷ item) rest h = ground (arith, pieces-more item rest)

-- The fields in order, each with the value that it is given.
abbrev assign_all : Headers → List (Bytes × Bytes) → Headers
assign_all out [] = out
assign_all out ((name, val) ∷ fields) = assign_all (assign name val out) fields

assign_at-field :
    (out : Headers) (f : Field)
    → Framed f
    → assign_at out (field_text f) (find (b'=' ∷ []) (field_text f))
      ≡ assign_all out (field_value f ∷ [])
assign_at-field out (name, val) h =
    let n = spelled name in
    let v = spelled val in
    ap (assign_at out (n ++ b'=' ∷ v)) (find-name n v h.0)
    ∙ ap₂ (λ a b. assign a b out)
        (ap url_decode (take-append n (b'=' ∷ v)) ∙ url_decode-spelled name)
        (ap url_decode (drop-name n v b'=') ∙ url_decode-spelled val)

add_items-form :
    (out : Headers) (f : Field) (fs : List Field)
    → All Framed (f ∷ fs)
    → add_items out (pieces b'&' (form_text (f ∷ fs))) ≡ assign_all out (map field_value (f ∷ fs))
unfolding add_items
add_items-form out f [] h =
    ap (add_items out) (pieces-one (field_text f) (field-not_amp f h.0)) ∙ assign_at-field out f h.0
add_items-form out f (g ∷ fs) h =
    ap (add_items out) (pieces-more (field_text f) (form_text (g ∷ fs)) (field-not_amp f h.0))
    ∙ ap (λ o. add_items o (pieces b'&' (form_text (g ∷ fs)))) (assign_at-field out f h.0)
    ∙ add_items-form (assign_all out (field_value f ∷ [])) g fs h.1

-- The value of the last field of that name, or `found` without one.
abbrev pub last_value : Bytes → Option Bytes → List (Bytes × Bytes) → Option Bytes
last_value key found [] = found
last_value key found ((name, val) ∷ fields) =
    last_value key (if bytes_eq name key then some val else found) fields

header-assign_all :
    (key : Bytes) (out : Headers) (fields : List (Bytes × Bytes))
    → header key (assign_all out fields) ≡ last_value key (header key out) fields
header-assign_all key out [] = refl
header-assign_all key out ((name, val) ∷ fields) =
    header-assign_all key (assign name val out) fields
    ∙ ap (λ o. last_value key o fields) (header-assign name key val out)

-- In a form of one or more fields, each a spelled name and a spelled value, a key has the value of
-- the last field of that name, with its bytes as they were spelled; without such a field it has the
-- fallback of the query and the form the empty string.
pub query_value-form :
    (f : Field) (fs : List Field) (key fallback : Bytes)
    → All Framed (f ∷ fs)
    → (query_value (parse_query (form_text (f ∷ fs))) key fallback
        ≡ value_or fallback (last_value key none (map field_value (f ∷ fs))))
      × (read_form_value (form_text (f ∷ fs)) key
          ≡ value_or [] (last_value key none (map field_value (f ∷ fs))))
unfolding query_value read_form_value parse_query header
query_value-form f fs key fallback h =
    let e =
      ap (header key) (add_items-form [] f fs h)
      ∙ header-assign_all key [] (map field_value (f ∷ fs)) in
    (ap (value_or fallback) e, ap (value_or []) e)
