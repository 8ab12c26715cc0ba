-- ===== src/WebSocket/Base64.antt =====
-- `base64Encode` of src/WebSocketsServer.cpp, against the decoder of RFC 4648. Shifts by 18, 12, 6
-- and the mask 0x3f are written with `/` and `%`.
pub mod RoundTrip
use crosspoint_simulator.Prelude.{
  ℕ, ◌+◌, ◌-◌, ◌*◌, ◌/◌, ◌%◌, ◌^◌, ◌&&◌, [], ◌∷◌, ◌++◌, leb, ◌==◌, if◌then◌else◌, get_or, Bytes,
  codes,
}

abbrev alphabet : Bytes
alphabet = codes "ABCDEFGHIJKLMNOPQRSTUVWXYZabcdefghijklmnopqrstuvwxyz0123456789+/"

unfoldable pub char_at : ℕ → ℕ
char_at i = get_or alphabet i 0

unfoldable pub symbol : ℕ → ℕ
unfolding char_at
symbol i = char_at (i % 64)

abbrev pub triple : ℕ → ℕ → ℕ → ℕ
triple b0 b1 b2 = b0 * 2 ^ 16 + b1 * 2 ^ 8 + b2

-- One round takes three bytes, and stands 0 for those past the end.
unfoldable pub base64_encode : Bytes → Bytes
unfolding symbol
base64_encode [] = []
base64_encode (b0 ∷ []) =
    let t = triple b0 0 0 in symbol (t / 2 ^ 18) ∷ symbol (t / 2 ^ 12) ∷ b'=' ∷ b'=' ∷ []
base64_encode (b0 ∷ b1 ∷ []) =
    let t = triple b0 b1 0 in
    symbol (t / 2 ^ 18) ∷ symbol (t / 2 ^ 12) ∷ symbol (t / 2 ^ 6) ∷ b'=' ∷ []
base64_encode (b0 ∷ b1 ∷ b2 ∷ rest) =
    let t = triple b0 b1 b2 in
    symbol (t / 2 ^ 18) ∷ symbol (t / 2 ^ 12) ∷ symbol (t / 2 ^ 6) ∷ symbol t ∷ base64_encode rest

-- The decoder that the RFC describes.
unfoldable pub value : ℕ → ℕ
value c =
    if leb b'A' c && leb c b'Z'
    then c - b'A'
    else if leb b'a' c && leb c b'z'
    then c - b'a' + 26
    else if leb b'0' c && leb c b'9'
    then c - b'0' + 52
    else if c == b'+'
    then 62
    else if c == b'/'
    then 63
    else 64

-- Four characters to one, two or three bytes; `=` stands only at the end.
unfoldable pub quantum : ℕ → ℕ → ℕ → ℕ → Bytes
unfolding value
quantum c0 c1 c2 c3 =
    let b0 = value c0 * 4 + value c1 / 16 in
    let b1 = value c1 % 16 * 16 + value c2 / 4 in
    let b2 = value c2 % 4 * 64 + value c3 in
    if c2 == b'=' then b0 ∷ [] else if c3 == b'=' then b0 ∷ b1 ∷ [] else b0 ∷ b1 ∷ b2 ∷ []

unfoldable pub base64_decode : Bytes → Bytes
unfolding quantum
base64_decode (c0 ∷ c1 ∷ c2 ∷ c3 ∷ rest) = quantum c0 c1 c2 c3 ++ base64_decode rest
base64_decode _ = []
