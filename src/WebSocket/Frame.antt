-- ===== src/WebSocket/Frame.antt =====
-- `readWsFrame`, `sendWsTextFrame` and `sendWsPongFrame` of src/WebSocketsServer.cpp. The masks
-- 0x0f, 0x7f and 0x80 are written with `%` and `/`, and shifts by 8 with a factor 256.
pub mod Refines
pub mod Bounds
pub mod RoundTrip
use crosspoint_simulator.Prelude.{
  ℕ, zero, suc, ◌+◌, ◌-◌, ◌*◌, ◌/◌, ◌%◌, ◌^◌, min, bit_xor, Bool, true, false, [], ◌∷◌, ◌++◌,
  Option, none, some, leb, ltb, ◌==◌, if◌then◌else◌, length, get_or, Bytes, ◌>>=◌,
}

abbrev pub max_ws_payload : ℕ
max_ws_payload = 256 * 1024 * 1024

pub record WsFrame : Type 0 where
  pub opcode : ℕ
  pub fin : Bool
  pub payload : Bytes

-- `for (uint8_t b : ext) len = (len << 8) | b` on a `uint64_t`
unfoldable pub big_endian : ℕ → Bytes → ℕ
big_endian len [] = len
big_endian len (b ∷ bs) = big_endian (len * 256 % 2 ^ 64 + b) bs

abbrev pub grow_step : ℕ
grow_step = 64 * 1024

-- `payload[i] ^= mask[i % 4]`, from index `i` on
unfoldable pub unmask : Bytes → ℕ → Bytes → Bytes
unmask mask i [] = []
unmask mask i (b ∷ bs) = bit_xor b (get_or mask (i % 4) 0) ∷ unmask mask (i + 1) bs

abbrev pub finish_payload : Bool → Bytes → Bytes → Bytes
finish_payload true mask payload = unmask mask 0 payload
finish_payload false mask payload = payload

module _ {S : Type 0} (recv : S → ℕ → Option (Bytes × S)) where
  -- The payload length, from the low seven bits of the second header byte.
  unfoldable pub read_length : ℕ → S → Option (ℕ × S)
  unfolding big_endian
  read_length len s =
      if len == 126
      then (do (ext, s') ← recv s 2; some (get_or ext 0 0 * 256 + get_or ext 1 0, s'))
      else if len == 127
      then (do (ext, s') ← recv s 8; some (big_endian 0 ext, s'))
      else some (len, s)

  -- The payload grows by 64 KiB at most for each read. `none` also stands for spent fuel.
  unfoldable pub read_payload : ℕ → ℕ → Bytes → S → Option (Bytes × S)
  read_payload zero len payload s = none
  read_payload (suc fuel) len payload s =
      let more = (do
        (chunk, s') ← recv s (min grow_step (len - length payload))
        read_payload fuel len (payload ++ chunk) s') in
      if ltb (length payload) len then more else some (payload, s)

  unfoldable pub read_mask : Bool → S → Option (Bytes × S)
  read_mask true s = recv s 4
  read_mask false s = some ([], s)

  unfoldable pub read_body : ℕ → Bool → Bool → ℕ → S → Option (WsFrame × S)
  unfolding read_length read_payload read_mask unmask
  read_body opcode fin masked len s = if ltb max_ws_payload len then none else (do
    (mask, s') ← read_mask masked s
    (payload, s'') ← read_payload (suc len) len [] s'
    some (record { opcode = opcode; fin = fin; payload = finish_payload masked mask payload }, s''))

  -- What follows the two header bytes.
  unfoldable pub read_rest : ℕ → ℕ → S → Option (WsFrame × S)
  unfolding read_body
  read_rest first second s = do
    (len, s') ← read_length (second % 128) s
    read_body (first % 16) (first / 128 % 2 == 1) (second / 128 % 2 == 1) len s'

  unfoldable pub read_ws_frame : S → Option (WsFrame × S)
  unfolding read_rest
  read_ws_frame s = do (header, s') ← recv s 2; read_rest (get_or header 0 0) (get_or header 1 0) s'

unfoldable pub be64 : ℕ → ℕ → Bytes
be64 zero n = []
be64 (suc i) n = n / 256 ^ i % 256 ∷ be64 i n

-- The length byte and the extended length of `sendWsTextFrame`.
unfoldable pub length_field : ℕ → Bytes
unfolding be64
length_field n =
    if ltb n 126
    then n ∷ []
    else if leb n 0xffff
    then 126 ∷ n / 256 % 256 ∷ n % 256 ∷ []
    else 127 ∷ be64 8 n

-- What `sendWsTextFrame` hands to `sendAll`.
unfoldable pub text_frame : Bytes → Bytes
unfolding length_field
text_frame message = 0x81 ∷ length_field (length message) ++ message

-- What `sendWsPongFrame` hands to `sendAll`; a longer payload is answered by nothing.
unfoldable pub pong_frame : Bytes → Option Bytes
pong_frame payload =
    if ltb (length payload) 126 then some (0x8a ∷ length payload ∷ payload) else none
