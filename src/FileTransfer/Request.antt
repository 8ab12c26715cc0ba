-- ===== src/FileTransfer/Request.antt =====
-- `parseRequest` of src/CrossPointWebServer.cpp over what successive `recv` calls find.
pub mod Reads
pub mod Framing
pub mod Normal
use crosspoint_simulator.Prelude.{
  ℕ, zero, suc, ◌+◌, ◌-◌, ◌*◌, ◌%◌, ◌^◌, min, Bool, true, false, ◌&&◌, ◌||◌, List, [], ◌∷◌, ◌++◌,
  map, Option, none, some, ltb, leb, ◌==◌, if◌then◌else◌, length, take, drop, is_empty, Bytes,
  ◌>>=◌, codes, find, is_space, trim_left,
}
use crosspoint_simulator.WebSocket.Socket.{Socket}
use crosspoint_simulator.WebSocket.Handshake.{
  Headers, header, recv_some, blank_line, has_blank_line,
}
use crosspoint_simulator.Http.Request.{Head, parse_head}
use crosspoint_simulator.FileTransfer.Decode.{parse_query}
use crosspoint_simulator.FileTransfer.Path.{normalize_path}

pub record Request : Type 0 where
  pub method : Bytes
  pub target : Bytes
  pub path : Bytes
  pub query : Headers
  pub headers : Headers
  pub body : Bytes

abbrev pub max_body_size : ℕ
max_body_size = 256 * 1024 * 1024

abbrev pub max_head : ℕ
max_head = 1024 * 1024

abbrev pub buffer_size : ℕ
buffer_size = 8192

-- The loop up to the blank line. `none` is a connection that closes or fails, more than 1 MB, or
-- spent fuel.
unfoldable pub read_head : ℕ → Bytes → Socket → Option (Bytes × Socket)
unfolding recv_some
read_head zero raw s = none
read_head (suc fuel) raw s =
    let more = (do
      (got, s') ← recv_some buffer_size s
      let rest = read_head fuel (raw ++ got) s'
      if ltb max_head (length (raw ++ got)) then none else rest) in
    if has_blank_line raw then some (raw, s) else more

-- The path and the query of a target whose first `?` is at the place given.
abbrev pub path_before : Bytes → Option ℕ → Bytes
path_before target none = target
path_before target (some q) = take q target

abbrev pub query_behind : Bytes → Option ℕ → Headers
query_behind target none = []
query_behind target (some q) = parse_query (drop (q + 1) target)

-- From the headers to a request without its body; the lines are split and the header names and
-- values taken from them as in `begin` of src/WebServer.cpp. An empty head has no request line.
unfoldable pub request_of : Bytes → Option Request
unfolding parse_head normalize_path
request_of text =
    let head = parse_head text in
    let question = find (b'?' ∷ []) head.target in
    if is_empty head.method_text || is_empty head.target
    then none
    else some (record {
      method = head.method_text;
      target = head.target;
      path = normalize_path (path_before head.target question);
      query = query_behind head.target question;
      headers = head.headers;
      body = [];
    })

-- The digits that `strtoull` takes, up to the first byte that is none.
unfoldable pub leading_number : ℕ → Bytes → ℕ
leading_number acc [] = acc
leading_number acc (c ∷ cs) =
    let more = leading_number (acc * 10 + (c - b'0')) cs in
    if leb b'0' c && leb c b'9' then more else acc

abbrev saturated : ℕ → ℕ
saturated n = min n (2 ^ 64 - 1)

abbrev negated : ℕ → ℕ
negated n = if ltb n (2 ^ 64) then (2 ^ 64 - n) % 2 ^ 64 else 2 ^ 64 - 1

abbrev signed_number : Bytes → ℕ
signed_number [] = 0
signed_number (c ∷ cs) =
    if c == b'-'
    then negated (leading_number 0 cs)
    else if c == b'+'
    then saturated (leading_number 0 cs)
    else saturated (leading_number 0 (c ∷ cs))

-- `std::strtoull` in base 10: white space, a sign and digits. Without digits it is 0; a number that
-- is too large is the largest one, and a minus sign negates it modulo 2^64.
unfoldable pub strtoull : Bytes → ℕ
unfolding leading_number trim_left
strtoull text = signed_number (trim_left text)

abbrev length_value : Option Bytes → ℕ
length_value none = 0
length_value (some v) = strtoull v

unfoldable pub content_length : Headers → ℕ
unfolding strtoull
content_length hs = length_value (header (codes "content-length") hs)

-- The loop that takes in `left` more bytes. A round takes one or more, so as much fuel as there are
-- bytes left is enough.
unfoldable pub read_rest : ℕ → ℕ → Socket → Option Bytes
unfolding recv_some
read_rest fuel zero s = some []
read_rest zero (suc left) s = none
read_rest (suc fuel) (suc left) s = do
  (got, s') ← recv_some (min buffer_size (suc left)) s
  rest ← read_rest fuel (suc left - length got) s'
  some (got ++ rest)

-- `early` are the bytes that came with the headers.
unfoldable pub take_body : Request → ℕ → Bytes → Socket → Option Request
unfolding read_rest
take_body req n early s = if ltb max_body_size n then none else do
  rest ← read_rest (n - length early) (n - length early) s
  some (record req { body = take n (early ++ rest) })

-- The request whose blank line is at `i`.
unfoldable pub request_at : Bytes → Socket → ℕ → Option Request
unfolding request_of content_length take_body
request_at raw s i = do
  req ← request_of (take i raw)
  take_body req (content_length req.headers) (drop (i + 4) raw) s

abbrev pub behind_head : Bytes × Socket → Option Request
behind_head (raw, s) = find blank_line raw >>= request_at raw s

-- Each `recv` brings a byte or more, so the head passes its limit before the fuel is spent.
unfoldable pub parse_request : Socket → Option Request
unfolding read_head
parse_request s = read_head (max_head + 2) [] s >>= behind_head
