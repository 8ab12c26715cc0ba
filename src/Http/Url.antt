-- ===== src/Http/Url.antt =====
-- `hexValue`, `urlDecodeStd` and `parseArgs` of src/WebServer.cpp.
pub mod Spelling
pub mod Args
use crosspoint_simulator.Prelude.{
  ℕ, zero, suc, ◌+◌, ◌-◌, ◌*◌, ◌&&◌, List, [], ◌∷◌, Option, none, some, leb, ◌==◌, if◌then◌else◌,
  take, drop, is_empty, Bytes, find,
}

-- `none` is the -1 of the source.
unfoldable pub hex_value : ℕ → Option ℕ
hex_value c =
    if leb b'0' c && leb c b'9'
    then some (c - b'0')
    else if leb b'a' c && leb c b'f'
    then some (c - b'a' + 10)
    else if leb b'A' c && leb c b'F'
    then some (c - b'A' + 10)
    else none

abbrev plus_as_space : ℕ → ℕ
plus_as_space c = if c == b'+' then b' ' else c

abbrev hex_pair : Option ℕ → Option ℕ → ℕ × ℕ → ℕ × ℕ
hex_pair (some hi) (some lo) plain = (hi * 16 + lo, 2)
hex_pair _ _ plain = plain

-- The byte that `c` with the bytes behind it stands for, and how many of those it takes.
unfoldable pub decode_at : ℕ → Bytes → ℕ × ℕ
unfolding hex_value
decode_at c (a ∷ b ∷ rest) =
    if c == b'%'
    then hex_pair (hex_value a) (hex_value b) (plus_as_space c, 0)
    else (plus_as_space c, 0)
decode_at c _ = (plus_as_space c, 0)

-- The loop of `urlDecodeStd`. `skip` is the amount by which it has moved `i` on.
unfoldable pub decode_from : ℕ → Bytes → Bytes
unfolding decode_at
decode_from skip [] = []
decode_from zero (c ∷ rest) = (decode_at c rest).0 ∷ decode_from (decode_at c rest).1 rest
decode_from (suc skip) (c ∷ rest) = decode_from skip rest

unfoldable pub url_decode : Bytes → Bytes
unfolding decode_from
url_decode input = decode_from 0 input

abbrev pub Args : Type 0
Args = List (Bytes × Bytes)

abbrev before : ℕ → List Bytes → List Bytes
before c [] = (c ∷ []) ∷ []
before c (item ∷ items) = (c ∷ item) ∷ items

-- The pieces between the `&`s.
unfoldable pub items : Bytes → List Bytes
items [] = [] ∷ []
items (c ∷ cs) = let rest = items cs in if c == b'&' then [] ∷ rest else before c rest

-- An item is a name, or a name and a value behind its first `=`, which is at `eq`.
unfoldable pub arg_at : Bytes → Option ℕ → Bytes × Bytes
unfolding url_decode
arg_at item none = (url_decode item, [])
arg_at item (some eq) = (url_decode (take eq item), url_decode (drop (eq + 1) item))

unfoldable pub arg_of : Bytes → Bytes × Bytes
unfolding arg_at
arg_of item = arg_at item (find (b'=' ∷ []) item)

unfoldable pub args_of : List Bytes → Args
unfolding arg_of
args_of [] = []
args_of (item ∷ rest) =
    let later = args_of rest in if is_empty item then later else arg_of item ∷ later

unfoldable pub parse_args : Bytes → Args
unfolding items args_of
parse_args encoded = args_of (items encoded)
