-- ===== src/FileTransfer/Escape/Reading.antt =====
-- What a reader of JSON, of XML and of a header makes of the escaped texts.
use crosspoint_simulator.Prelude.{
  ℕ, zero, suc, ◌+◌, ◌*◌, ◌<◌, ◌≡◌, ◌≢◌, ◌||◌, refl, ap, ◌∙◌, List, [], ◌∷◌, ◌++◌, append_assoc,
  Option, none, some, arith, ◌==◌, ltb, if◌then◌else◌, All, Bytes, codes, bytes_eq, if-cases, ◌/◌,
  ◌%◌, ◌>>=◌, ltb→lt,
}
use crosspoint_simulator.Http.Url.{hex_value}
use crosspoint_simulator.FileTransfer.Escape.{
  hex_digit, json_byte, json_escape, xml_byte, xml_escape, header_safe_bytes, header_safe_filename,
  or_download,
}

-- What is read, in front of what is read behind it, and what is left.
abbrev cons_read : ℕ → Option (Bytes × Bytes) → Option (Bytes × Bytes)
cons_read c none = none
cons_read c (some (text, left)) = some (c ∷ text, left)

abbrev pub append_read : Bytes → Option (Bytes × Bytes) → Option (Bytes × Bytes)
append_read xs none = none
append_read xs (some (text, left)) = some (xs ++ text, left)

abbrev ascii_read : ℕ → Option (Bytes × Bytes) → Option (Bytes × Bytes)
ascii_read n later = if ltb n 128 then cons_read n later else none

-- Inside a JSON string: in its text, behind a backslash, or with hex digits to come.
pub data JsonMode : Type 0 where
  plain : JsonMode
  escaped : JsonMode
  unicode : ℕ → ℕ → JsonMode

abbrev short_escape : ℕ → Option ℕ
short_escape c =
    if c == b'"' || (c == b'\\' || c == b'/')
    then some c
    else if c == b'n'
    then some 10
    else if c == b'r'
    then some 13
    else if c == b't'
    then some 9
    else if c == b'b'
    then some 8
    else if c == b'f'
    then some 12
    else none

-- The rest of a JSON string up to its closing quote by the rules of RFC 8259, and the bytes behind
-- the quote; `none` where it is not a string, and for a `\u` beyond ASCII.
unfoldable pub read_json : JsonMode → Bytes → Option (Bytes × Bytes)
read_json m [] = none
read_json plain (c ∷ cs) =
    if c == b'"'
    then some ([], cs)
    else if c == b'\\'
    then read_json escaped cs
    else if ltb c 32
    then none
    else cons_read c (read_json plain cs)
read_json escaped (c ∷ cs) =
    if c == b'u'
    then read_json (unicode 3 0) cs
    else elim (short_escape c) [ none ↦ none | some b ↦ cons_read b (read_json plain cs) ]
read_json (unicode zero n) (c ∷ cs) =
    hex_value c >>= λ d. ascii_read (n * 16 + d) (read_json plain cs)
read_json (unicode (suc more) n) (c ∷ cs) =
    hex_value c >>= λ d. read_json (unicode more (n * 16 + d)) cs

hex_value-digit : (d : ℕ) → d < 16 → hex_value (hex_digit d) ≡ some d
unfolding hex_value
hex_value-digit d h = ground arith

read_json-unicode :
    (hi lo : ℕ) (text : Bytes)
    → hi < 8
    → lo < 16
    → read_json (unicode 3 0) (b'0' ∷ b'0' ∷ hex_digit hi ∷ hex_digit lo ∷ text)
      ≡ cons_read (hi * 16 + lo) (read_json plain text)
unfolding read_json hex_value
read_json-unicode hi lo text h k =
    ap (λ o. o >>= λ d. read_json (unicode 0 (0 + d)) (hex_digit lo ∷ text))
      (hex_value-digit hi (omega arith))
    ∙ ap (λ o. o >>= λ d. ascii_read ((0 + hi) * 16 + d) (read_json plain text))
        (hex_value-digit lo k)
    ∙ if-cases (λ o. o ≡ cons_read (hi * 16 + lo) (read_json plain text))
        (ltb ((0 + hi) * 16 + lo) 128)
        (λ _. ap (λ n. cons_read n (read_json plain text)) (omega arith)) (λ h'. ground arith)

read_json-byte :
    (c : ℕ) (text : Bytes)
    → read_json plain (json_byte c ++ text) ≡ cons_read c (read_json plain text)
unfolding json_byte read_json
read_json-byte c text =
    let P = λ (s : Bytes). read_json plain (s ++ text) ≡ cons_read c (read_json plain text) in
    if-cases P (c == b'\\') (λ h. ground arith)
      λ a.
        if-cases P (c == b'"') (λ h. ground arith)
          λ b.
            if-cases P (c == b'\n') (λ h. ground arith)
              λ d.
                if-cases P (c == b'\r') (λ h. ground arith)
                  λ e.
                    if-cases P (c == b'\t') (λ h. ground arith)
                      λ f.
                        if-cases P (ltb c 32)
                          (λ h.
                            read_json-unicode (c / 16) (c % 16) text (omega (arith, ltb→lt c 32 h))
                              (omega arith)
                            ∙ ap (λ n. cons_read n (read_json plain text)) (omega arith))
                          (λ h. ground arith)

append_read-cons :
    (c : ℕ) (xs : Bytes) (o : Option (Bytes × Bytes))
    → cons_read c (append_read xs o) ≡ append_read (c ∷ xs) o
append_read-cons c xs none = refl
append_read-cons c xs (some r) = refl

append_read-nil : (o : Option (Bytes × Bytes)) → o ≡ append_read [] o
append_read-nil none = refl
append_read-nil (some r) = refl

-- An escaped text inside a JSON string is read as the text, whatever its bytes and whatever is
-- behind it.
pub read_json-json_escape :
    (s rest : Bytes)
    → read_json plain (json_escape s ++ rest) ≡ append_read s (read_json plain rest)
unfolding json_escape
read_json-json_escape [] rest = append_read-nil (read_json plain rest)
read_json-json_escape (c ∷ s) rest =
    ap (read_json plain) (append_assoc (json_byte c) (json_escape s) rest)
    ∙ read_json-byte c (json_escape s ++ rest)
    ∙ ap (cons_read c) (read_json-json_escape s rest)
    ∙ append_read-cons c s (read_json plain rest)

abbrev entities : List (Bytes × ℕ)
entities =
    (codes "amp", b'&')
    ∷ (codes "lt", b'<')
    ∷ (codes "gt", b'>')
    ∷ (codes "quot", b'"')
    ∷ (codes "apos", b'\'')
    ∷ []

abbrev entity_in : List (Bytes × ℕ) → Bytes → Option ℕ
entity_in [] name = none
entity_in ((n, c) ∷ more) name = if bytes_eq name n then some c else entity_in more name

abbrev entity_read : Option ℕ → Option (Bytes × Bytes) → Option (Bytes × Bytes)
entity_read none later = none
entity_read (some b) later = cons_read b later

-- In the text of an element, or in the name of an entity of which some bytes are read.
pub data XmlMode : Type 0 where
  text : XmlMode
  entity : Bytes → XmlMode

-- The text of an XML element up to the next tag with its predefined entities replaced, and the
-- bytes from the tag on.
unfoldable pub read_xml : XmlMode → Bytes → Option (Bytes × Bytes)
unfolding bytes_eq
read_xml m [] = none
read_xml text (c ∷ cs) =
    if c == b'<'
    then some ([], c ∷ cs)
    else if c == b'&'
    then read_xml (entity []) cs
    else cons_read c (read_xml text cs)
read_xml (entity name) (c ∷ cs) =
    if c == b';'
    then entity_read (entity_in entities name) (read_xml text cs)
    else read_xml (entity (name ++ c ∷ [])) cs

read_xml-byte :
    (c : ℕ) (rest : Bytes) → read_xml text (xml_byte c ++ rest) ≡ cons_read c (read_xml text rest)
unfolding xml_byte read_xml
read_xml-byte c rest =
    let P = λ (s : Bytes). read_xml text (s ++ rest) ≡ cons_read c (read_xml text rest) in
    if-cases P (c == b'&') (λ h. ground arith)
      λ a.
        if-cases P (c == b'<') (λ h. ground arith)
          λ b.
            if-cases P (c == b'>') (λ h. ground arith)
              λ d.
                if-cases P (c == b'"') (λ h. ground arith)
                  λ e. if-cases P (c == b'\'') (λ h. ground arith) (λ h. ground arith)

-- An escaped text in an XML element is read as the text.
pub read_xml-xml_escape :
    (s rest : Bytes) → read_xml text (xml_escape s ++ rest) ≡ append_read s (read_xml text rest)
unfolding xml_escape
read_xml-xml_escape [] rest = append_read-nil (read_xml text rest)
read_xml-xml_escape (c ∷ s) rest =
    ap (read_xml text) (append_assoc (xml_byte c) (xml_escape s) rest)
    ∙ read_xml-byte c (xml_escape s ++ rest)
    ∙ ap (cons_read c) (read_xml-xml_escape s rest)
    ∙ append_read-cons c s (read_xml text rest)

-- A byte that neither ends a quoted header value nor the header.
abbrev pub HeaderSafe : ℕ → Type 0
HeaderSafe c = (c ≢ b'"') × (c ≢ b'\\') × (c ≢ b'\r') × (c ≢ b'\n')

header_safe_bytes-HeaderSafe : (s : Bytes) → All HeaderSafe (header_safe_bytes s)
unfolding header_safe_bytes
header_safe_bytes-HeaderSafe [] = tt
header_safe_bytes-HeaderSafe (c ∷ s) = ground (arith, header_safe_bytes-HeaderSafe s)

or_download-HeaderSafe : (s : Bytes) → All HeaderSafe s → All HeaderSafe (or_download s)
or_download-HeaderSafe [] h = ground arith
or_download-HeaderSafe (c ∷ s) h = h

-- The name in a Content-Disposition header neither ends its quotes nor the header.
pub header_safe_filename-HeaderSafe : (s : Bytes) → All HeaderSafe (header_safe_filename s)
unfolding header_safe_filename
header_safe_filename-HeaderSafe s =
    or_download-HeaderSafe (header_safe_bytes s) (header_safe_bytes-HeaderSafe s)
