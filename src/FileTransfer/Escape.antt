-- ===== src/FileTransfer/Escape.antt =====
-- `jsonEscape`, `xmlEscape` and `headerSafeFilename` of src/CrossPointWebServer.cpp.
pub mod Reading
use crosspoint_simulator.Prelude.{
  ℕ, ◌+◌, ◌-◌, ◌/◌, ◌%◌, List, [], ◌∷◌, ◌++◌, ◌==◌, ◌||◌, ltb, if◌then◌else◌, Bytes, codes,
}

-- A digit of `%x`.
abbrev pub hex_digit : ℕ → ℕ
hex_digit d = if ltb d 10 then b'0' + d else b'a' + (d - 10)

-- One round of `jsonEscape`; a byte below 0x20 has two digits at most, so `%04x` pads it with two
-- zeros.
unfoldable pub json_byte : ℕ → Bytes
json_byte c =
    if c == b'\\'
    then codes "\\\\"
    else if c == b'"'
    then codes "\\\""
    else if c == b'\n'
    then codes "\\n"
    else if c == b'\r'
    then codes "\\r"
    else if c == b'\t'
    then codes "\\t"
    else if ltb c 32
    then codes "\\u00" ++ hex_digit (c / 16) ∷ hex_digit (c % 16) ∷ []
    else c ∷ []

unfoldable pub json_escape : Bytes → Bytes
unfolding json_byte
json_escape [] = []
json_escape (c ∷ cs) = json_byte c ++ json_escape cs

unfoldable pub xml_byte : ℕ → Bytes
xml_byte c =
    if c == b'&'
    then codes "&amp;"
    else if c == b'<'
    then codes "&lt;"
    else if c == b'>'
    then codes "&gt;"
    else if c == b'"'
    then codes "&quot;"
    else if c == b'\''
    then codes "&apos;"
    else c ∷ []

unfoldable pub xml_escape : Bytes → Bytes
unfolding xml_byte
xml_escape [] = []
xml_escape (c ∷ cs) = xml_byte c ++ xml_escape cs

-- The loop of `headerSafeFilename`.
unfoldable pub header_safe_bytes : Bytes → Bytes
header_safe_bytes [] = []
header_safe_bytes (c ∷ cs) =
    let rest = header_safe_bytes cs in
    if c == b'\r' || c == b'\n'
    then rest
    else if c == b'"' || c == b'\\'
    then b'_' ∷ rest
    else c ∷ rest

abbrev pub or_download : Bytes → Bytes
or_download [] = codes "download"
or_download (c ∷ cs) = c ∷ cs

unfoldable pub header_safe_filename : Bytes → Bytes
unfolding header_safe_bytes
header_safe_filename filename = or_download (header_safe_bytes filename)
