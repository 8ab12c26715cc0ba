-- ===== src/WebSocket/Frame/RoundTrip.antt =====
-- The reader against the frames of RFC 6455 section 5.2, and against this server's own frames.
use crosspoint_simulator.Prelude.{
  ℕ, zero, suc, ◌+◌, ◌-◌, ◌/◌, ◌%◌, ◌^◌, ◌≤◌, ◌<◌, ◌≡◌, refl, ap, ◌∙◌, min, Bool, true, false, [],
  ◌∷◌, ◌++◌, some, arith, ltb, leb, ltb-false, lt→ltb, ◌==◌, if◌then◌else◌, length, take, drop,
  Bytes, Bool-cases, inl, inr, bit_xor-bit_xor, append-nil, append_assoc, length-append,
  take-append, drop-append, take-append-drop, length-take, length-drop, bit_xor,
}
use crosspoint_simulator.WebSocket.Socket.{split}
use crosspoint_simulator.WebSocket.Socket.Reads.{split_within}
use crosspoint_simulator.WebSocket.Frame.{
  WsFrame, max_ws_payload, big_endian, grow_step, unmask, read_length, read_payload, read_mask,
  read_body, read_rest, read_ws_frame, finish_payload, be64, length_field, text_frame,
}

-- A frame as a peer writes it: FIN and opcode, the masked bit with the payload length, the mask,
-- and the payload, masked if there is a mask.
pub data Mask : Type 0 where
  unmasked : Mask
  masked_by : ℕ → ℕ → ℕ → ℕ → Mask

abbrev pub mask_bytes : Mask → Bytes
mask_bytes unmasked = []
mask_bytes (masked_by a b c d) = a ∷ b ∷ c ∷ d ∷ []

abbrev pub is_masked : Mask → Bool
is_masked unmasked = false
is_masked (masked_by _ _ _ _) = true

-- The four masking bytes take turns.
unfoldable pub masked : ℕ → ℕ → ℕ → ℕ → Bytes → Bytes
masked a b c d [] = []
masked a b c d (x ∷ xs) = bit_xor x a ∷ masked b c d a xs

abbrev pub mask_payload : Mask → Bytes → Bytes
mask_payload unmasked p = p
mask_payload (masked_by a b c d) p = masked a b c d p

abbrev pub flag : Bool → ℕ
flag true = 128
flag false = 0

-- The payload length by the three forms of the RFC: seven bits, and the bytes that follow.
unfoldable pub length_code : ℕ → ℕ
length_code n = if ltb n 126 then n else if leb n 0xffff then 126 else 127

unfoldable pub extended : ℕ → Bytes
extended n =
    if ltb n 126 then [] else if leb n 0xffff then n / 256 % 256 ∷ n % 256 ∷ [] else be64 8 n

unfoldable pub wire : Mask → WsFrame → Bytes
wire m f =
    (flag f.fin + f.opcode)
      ∷ (flag (is_masked m) + length_code (length f.payload))
      ∷ extended (length f.payload)
    ++ (mask_bytes m ++ mask_payload m f.payload)

pub length-be64 : (k n : ℕ) → length (be64 k n) ≡ k
unfolding be64
length-be64 zero n = refl
length-be64 (suc k) n = ap suc (length-be64 k n)

-- Where the reader is at byte `i`, it takes the mask's byte whose turn it is.
record Unmasks (a b c d i : ℕ) (p : Bytes) : Type 0 where
  turn_a : i % 4 ≡ 0 → unmask (a ∷ b ∷ c ∷ d ∷ []) i (masked a b c d p) ≡ p
  turn_b : i % 4 ≡ 1 → unmask (a ∷ b ∷ c ∷ d ∷ []) i (masked b c d a p) ≡ p
  turn_c : i % 4 ≡ 2 → unmask (a ∷ b ∷ c ∷ d ∷ []) i (masked c d a b p) ≡ p
  turn_d : i % 4 ≡ 3 → unmask (a ∷ b ∷ c ∷ d ∷ []) i (masked d a b c p) ≡ p

unmask-masked : (a b c d i : ℕ) (p : Bytes) → Unmasks a b c d i p
unfolding unmask masked
unmask-masked a b c d i [] = record {
  turn_a = λ _. refl;
  turn_b = λ _. refl;
  turn_c = λ _. refl;
  turn_d = λ _. refl;
}
unmask-masked a b c d i (x ∷ xs) =
    let rest = unmask-masked a b c d (i + 1) xs in
    record {
      turn_a = λ (e : i % 4 ≡ 0). rw (e, bit_xor-bit_xor x a, rest.turn_b (omega arith));
      turn_b = λ (e : i % 4 ≡ 1). rw (e, bit_xor-bit_xor x b, rest.turn_c (omega arith));
      turn_c = λ (e : i % 4 ≡ 2). rw (e, bit_xor-bit_xor x c, rest.turn_d (omega arith));
      turn_d = λ (e : i % 4 ≡ 3). rw (e, bit_xor-bit_xor x d, rest.turn_a (omega arith));
    }

length-masked : (a b c d : ℕ) (p : Bytes) → length (masked a b c d p) ≡ length p
unfolding masked
length-masked a b c d [] = refl
length-masked a b c d (x ∷ xs) = ap suc (length-masked b c d a xs)

length-mask_payload : (m : Mask) (p : Bytes) → length (mask_payload m p) ≡ length p
length-mask_payload unmasked p = refl
length-mask_payload (masked_by a b c d) p = length-masked a b c d p

pub split_exact : (xs rest : Bytes) (n : ℕ) → length xs ≡ n → split (xs ++ rest) n ≡ some (xs, rest)
unfolding split
split_exact xs rest n e =
    rw (← e) (ground (arith, length-append xs rest, take-append xs rest, drop-append xs rest))

big_endian-be64 : (n : ℕ) → n < 2 ^ 64 → big_endian 0 (be64 8 n) ≡ n
unfolding big_endian be64
big_endian-be64 n h = omega arith

-- The 64 KiB steps add up to one read of the whole payload.
read_payload_lem :
    (fuel len : ℕ) (got left rest : Bytes)
    → length got + length left ≡ len
    → length left < fuel
    → read_payload split fuel len got (left ++ rest) ≡ some (got ++ left, rest)
unfolding read_payload
read_payload_lem zero len got left rest e h = absurd (omega arith)
read_payload_lem (suc fuel) len got [] rest e h =
    rw (ltb-false (length got) len (omega arith), append-nil)
read_payload_lem (suc fuel) len got (b ∷ left) rest e h =
    let k = min grow_step (len - length got) in
    let rejoin = append_assoc got (take k (b ∷ left)) (drop k (b ∷ left)) in
    rw (lt→ltb (length got) len (omega arith), split_within k (b ∷ left) rest (omega arith))
      (read_payload_lem fuel len (got ++ take k (b ∷ left)) (drop k (b ∷ left)) rest
          (omega (
            arith,
            length-append got (take k (b ∷ left)),
            length-take k (b ∷ left),
            length-drop k (b ∷ left),
          ))
          (omega (arith, length-drop k (b ∷ left)))
        ∙ ap (λ (x : Bytes). some (x, rest))
            (rejoin ∙ ap (◌++◌ got) (take-append-drop k (b ∷ left))))

length_code-lt : (n : ℕ) → length_code n < 128
unfolding length_code
length_code-lt n = ground arith

low_bits : (m : Bool) (c : ℕ) → c < 128 → (flag m + c) % 128 ≡ c
low_bits true c h = omega arith
low_bits false c h = omega arith

high_bit : (m : Bool) (c : ℕ) → c < 128 → ((flag m + c) / 128 % 2 == 1) ≡ m
high_bit true c h = ground arith
high_bit false c h = ground arith

opcode_bits : (m : Bool) (c : ℕ) → c < 16 → (flag m + c) % 16 ≡ c
opcode_bits true c h = omega arith
opcode_bits false c h = omega arith

read_length_lem :
    (n : ℕ) (rest : Bytes)
    → n ≤ max_ws_payload
    → read_length split (length_code n) (extended n ++ rest) ≡ some (n, rest)
unfolding read_length length_code extended
read_length_lem n rest h = elim (Bool-cases (ltb n 126)) [
  | inl short ↦ rw short (ground arith)
  | inr long ↦ elim (Bool-cases (leb n 0xffff)) [
    | inl two ↦
        rw (long, two, split_exact (n / 256 % 256 ∷ n % 256 ∷ []) rest 2 refl) (ground arith)
    | inr eight ↦ rw (
      long,
      eight,
      split_exact (be64 8 n) rest 8 (length-be64 8 n),
      big_endian-be64 n (omega arith),
    )
  ]
]

read_mask_lem :
    (m : Mask) (rest : Bytes)
    → read_mask split (is_masked m) (mask_bytes m ++ rest) ≡ some (mask_bytes m, rest)
unfolding read_mask
read_mask_lem unmasked rest = refl
read_mask_lem (masked_by a b c d) rest = split_exact _ rest 4 refl

finish_payload_lem :
    (m : Mask) (p : Bytes) → finish_payload (is_masked m) (mask_bytes m) (mask_payload m p) ≡ p
finish_payload_lem unmasked p = refl
finish_payload_lem (masked_by a b c d) p = (unmask-masked a b c d 0 p).turn_a refl

read_body_lem :
    (m : Mask) (f : WsFrame) (rest : Bytes)
    → length f.payload ≤ max_ws_payload
    → read_body split f.opcode f.fin
        (is_masked m)
        (length f.payload)
        (mask_bytes m ++ (mask_payload m f.payload ++ rest))
      ≡ some (f, rest)
unfolding read_body
read_body_lem m f rest h = rw (
  ltb-false max_ws_payload (length f.payload) h,
  read_mask_lem m (mask_payload m f.payload ++ rest),
  read_payload_lem (suc (length f.payload)) (length f.payload) [] (mask_payload m f.payload) rest
      (omega (arith, length-mask_payload m f.payload))
      (omega (arith, length-mask_payload m f.payload)),
  finish_payload_lem m f.payload,
)

read_rest_lem :
    (m : Mask) (f : WsFrame) (n : ℕ) (body : Bytes)
    → f.opcode < 16
    → n ≤ max_ws_payload
    → read_rest split
        (flag f.fin + f.opcode)
        (flag (is_masked m) + length_code n)
        (extended n ++ body)
      ≡ read_body split f.opcode f.fin (is_masked m) n body
unfolding read_rest
read_rest_lem m f n body op h = rw (
  low_bits (is_masked m) (length_code n) (length_code-lt n),
  high_bit (is_masked m) (length_code n) (length_code-lt n),
  read_length_lem n body h,
  opcode_bits f.fin f.opcode op,
  high_bit f.fin f.opcode (omega arith),
)

-- Every frame that a peer writes by RFC 6455, masked or not, of each length form, is read back
-- as it was sent, and the bytes behind it stay unread.
pub read_ws_frame-wire :
    (m : Mask) (f : WsFrame) (rest : Bytes)
    → f.opcode < 16
    → length f.payload ≤ max_ws_payload
    → read_ws_frame split (wire m f ++ rest) ≡ some (f, rest)
unfolding read_ws_frame wire
read_ws_frame-wire m f rest op h =
    let n = length f.payload in
    let body = mask_bytes m ++ mask_payload m f.payload in
    let first = flag f.fin + f.opcode in
    let second = flag (is_masked m) + length_code n in
    rw
      (
        split_exact (first ∷ second ∷ []) ((extended n ++ body) ++ rest) 2 refl,
        append_assoc (extended n) body rest,
        append_assoc (mask_bytes m) (mask_payload m f.payload) rest,
      )
      (read_rest_lem m f n (mask_bytes m ++ (mask_payload m f.payload ++ rest)) op h
        ∙ read_body_lem m f rest h)

-- The frames that `sendWsTextFrame` sends are unmasked text frames with FIN.
text_frame-wire :
    (message : Bytes)
    → text_frame message ≡ wire unmasked (record { opcode = 1; fin = true; payload = message })
unfolding text_frame length_field wire length_code extended
text_frame-wire message = ground arith

-- What `sendWsTextFrame` sends for a message within the limit is, read by the reader, one final
-- text frame with that message, and nothing is left of it.
read_ws_frame-text_frame :
    (message rest : Bytes)
    → length message ≤ max_ws_payload
    → read_ws_frame split (text_frame message ++ rest)
      ≡ some (record { opcode = 1; fin = true; payload = message }, rest)
read_ws_frame-text_frame message rest h = rw (text_frame-wire message) (
    read_ws_frame-wire unmasked (record { opcode = 1; fin = true; payload = message }) rest
      (omega arith) h)
