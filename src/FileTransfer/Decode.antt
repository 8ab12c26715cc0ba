-- ===== src/FileTransfer/Decode.antt =====
-- `urlDecode`, `parseQuery`, `queryValue` and `readFormValue` of src/CrossPointWebServer.cpp.
pub mod Form
use crosspoint_simulator.Prelude.{
  ℕ, zero, suc, ◌+◌, ◌-◌, ◌*◌, ◌%◌, List, [], ◌∷◌, Option, none, some, ◌==◌, ◌||◌, if◌then◌else◌,
  take, drop, Bytes, find, is_space,
}
use crosspoint_simulator.WebSocket.Handshake.{Headers, header, assign}
use crosspoint_simulator.Http.Url.{hex_value}

abbrev signed : ℕ → ℕ → ℕ
signed sign n = if sign == b'-' then (256 - n) % 256 else n

-- Behind a white space or a sign, one digit is left.
abbrev after_sign : ℕ → Option ℕ → Option ℕ
after_sign a none = none
after_sign a (some lo) = if is_space a || (a == b'+' || a == b'-') then some (signed a lo) else none

abbrev after_digit : ℕ → ℕ → Option ℕ → Option ℕ
after_digit hi b (some lo) = some (hi * 16 + lo)
after_digit hi b none = if b == 0 then some hi else none

abbrev two_digits : ℕ → ℕ → Option ℕ → Option ℕ
two_digits a b (some hi) = after_digit hi b (hex_value b)
two_digits a b none = after_sign a (hex_value b)

-- The byte that `strtol` with base 16 makes of the two bytes of `hex`, and `none` where it stops
-- before the end of the C string that they make: it skips white space and takes a sign, and a NUL
-- ends the string, so that `hex` is empty where it comes first.
unfoldable pub hex_byte : ℕ → ℕ → Option ℕ
unfolding hex_value
hex_byte a b = if a == 0 then some 0 else two_digits a b (hex_value a)

abbrev plus_as_space : ℕ → ℕ
plus_as_space c = if c == b'+' then b' ' else c

abbrev or_plain : ℕ → Option ℕ → ℕ × ℕ
or_plain c (some value) = (value, 2)
or_plain c none = (plus_as_space c, 0)

-- The byte that `c` with the bytes behind it stands for, and how many of those it takes.
unfoldable pub decode_at : ℕ → Bytes → ℕ × ℕ
unfolding hex_byte
decode_at c (a ∷ b ∷ rest) = if c == b'%' then or_plain c (hex_byte a b) else (plus_as_space c, 0)
decode_at c _ = (plus_as_space c, 0)

-- The loop of `urlDecode`. `skip` is the amount by which it has moved `i` on.
unfoldable pub decode_from : ℕ → Bytes → Bytes
unfolding decode_at
decode_from skip [] = []
decode_from zero (c ∷ rest) = (decode_at c rest).0 ∷ decode_from (decode_at c rest).1 rest
decode_from (suc skip) (c ∷ rest) = decode_from skip rest

unfoldable pub url_decode : Bytes → Bytes
unfolding decode_from
url_decode input = decode_from 0 input

abbrev pub before : ℕ → List Bytes → List Bytes
before c [] = (c ∷ []) ∷ []
before c (item ∷ items) = (c ∷ item) ∷ items

-- The pieces between the separators, empty ones too: `find` and `substr` from `start` on.
unfoldable pub pieces : ℕ → Bytes → List Bytes
pieces separator [] = [] ∷ []
pieces separator (c ∷ cs) =
    let rest = pieces separator cs in if c == separator then [] ∷ rest else before c rest

-- `out[name] = value` for an item whose first `=` is at `eq`.
abbrev pub assign_at : Headers → Bytes → Option ℕ → Headers
assign_at out item none = assign (url_decode item) [] out
assign_at out item (some eq) =
    assign (url_decode (take eq item)) (url_decode (drop (eq + 1) item)) out

unfoldable pub add_items : Headers → List Bytes → Headers
unfolding url_decode assign
add_items out [] = out
add_items out (item ∷ rest) = add_items (assign_at out item (find (b'=' ∷ []) item)) rest

unfoldable pub parse_query : Bytes → Headers
unfolding add_items pieces
parse_query query = add_items [] (pieces b'&' query)

abbrev pub value_or : Bytes → Option Bytes → Bytes
value_or fallback none = fallback
value_or fallback (some v) = v

unfoldable pub query_value : Headers → Bytes → Bytes → Bytes
unfolding header
query_value query key fallback = value_or fallback (header key query)

unfoldable pub read_form_value : Bytes → Bytes → Bytes
unfolding parse_query header
read_form_value body key = value_or [] (header key (parse_query body))
