-- ===== src/WebSocket/Handshake.antt =====
-- The handshake of the client thread in src/WebSocketsServer.cpp: the request is read to its blank
-- line, its headers are split, and the key is answered.
pub mod Headers
pub mod Request
use crosspoint_simulator.Prelude.{
  ℕ, zero, suc, ◌+◌, Bool, true, false, List, [], ◌∷◌, ◌++◌, map, Option, none, some, ltb, ◌==◌,
  if◌then◌else◌, length, take, drop, is_empty, Bytes, ◌>>=◌, codes, bytes_eq, find, lower, trim,
}
use crosspoint_simulator.WebSocket.Socket.{segment, Socket, put_back}
use crosspoint_simulator.WebSocket.Sha1.{websocket_accept_value}

-- One `recv` of up to `n` bytes, n > 0. Here a signal counts as a failure.
unfoldable pub recv_some : ℕ → Socket → Option (Bytes × Socket)
unfolding put_back
recv_some n (segment b bs ∷ s) = some (take n (b ∷ bs), put_back (drop n (b ∷ bs)) s)
recv_some n _ = none

abbrev pub max_request : ℕ
max_request = 32768

abbrev pub blank_line : Bytes
blank_line = 13 ∷ 10 ∷ 13 ∷ 10 ∷ []

abbrev pub has_blank_line : Bytes → Bool
has_blank_line raw = elim (find blank_line raw) [ none ↦ false | some _ ↦ true ]

-- `none` is a closed connection, or spent fuel.
unfoldable pub read_request : ℕ → Bytes → Socket → Option (Bytes × Socket)
unfolding recv_some
read_request zero raw s = none
read_request (suc fuel) raw s =
    let more = (do
      (got, s') ← recv_some 2048 s
      let rest = read_request fuel (raw ++ got) s'
      if ltb max_request (length (raw ++ got)) then none else rest) in
    if has_blank_line raw then some (raw, s) else more

-- `std::getline` until the stream ends.
unfoldable pub get_lines : Bytes → Bytes → List Bytes
get_lines line [] = if is_empty line then [] else line ∷ []
get_lines line (c ∷ cs) =
    let ended = line ∷ get_lines [] cs in
    let longer = get_lines (line ++ c ∷ []) cs in if c == 10 then ended else longer

abbrev pub Headers : Type 0
Headers = List (Bytes × Bytes)

unfoldable pub header : Bytes → Headers → Option Bytes
header name [] = none
header name ((n, v) ∷ hs) = if bytes_eq n name then some v else header name hs

-- `headers[name] = value`
unfoldable pub assign : Bytes → Bytes → Headers → Headers
assign name value [] = (name, value) ∷ []
assign name value ((n, v) ∷ hs) =
    let later = assign name value hs in if bytes_eq n name then (n, value) ∷ hs else (n, v) ∷ later

-- `if (!line.empty() && line.back() == '\r') line.pop_back();`
unfoldable pub drop_return : Bytes → Bytes
drop_return [] = []
drop_return (c ∷ []) = if c == 13 then [] else c ∷ []
drop_return (c ∷ d ∷ cs) = c ∷ drop_return (d ∷ cs)

unfoldable pub add_header : Headers → Bytes → Headers
add_header hs line = elim (find (b':' ∷ []) (drop_return line)) [
  | none ↦ hs
  | some colon ↦
      assign (map lower (take colon (drop_return line)))
        (trim (drop (colon + 1) (drop_return line))) hs
]

unfoldable pub add_headers : Headers → List Bytes → Headers
unfolding add_header
add_headers hs [] = hs
add_headers hs (l ∷ ls) = add_headers (add_header hs l) ls

abbrev without_first : List Bytes → List Bytes
without_first [] = []
without_first (_ ∷ ls) = ls

abbrev or_all : Option ℕ → Bytes → ℕ
or_all none raw = length raw
or_all (some i) raw = i

unfoldable pub parse_headers : Bytes → Headers
unfolding add_headers get_lines
parse_headers raw =
    add_headers [] (without_first (get_lines [] (take (or_all (find blank_line raw) raw) raw)))

abbrev pub key_name : Bytes
key_name = codes "sec-websocket-key"

abbrev pub crlf : Bytes
crlf = 13 ∷ 10 ∷ []

unfoldable pub response : Bytes → Bytes
unfolding websocket_accept_value
response key =
    codes "HTTP/1.1 101 Switching Protocols"
    ++ (crlf
        ++ (codes "Upgrade: websocket"
            ++ (crlf
                ++ (codes "Connection: Upgrade"
                    ++ (crlf
                        ++ (codes "Sec-WebSocket-Accept: "
                            ++ (websocket_accept_value key ++ blank_line)))))))

-- The response that is sent, or none where the server closes the connection. The request grows by
-- a byte or more for each `recv`, so it passes the limit before the fuel is spent.
unfoldable pub handshake : Socket → Option (Bytes × Socket)
unfolding read_request parse_headers header response
handshake s = do
  (raw, s') ← read_request (max_request + 2) [] s
  key ← header key_name (parse_headers raw)
  some (response key, s')
