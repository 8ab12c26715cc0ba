-- ===== src/WebSocket/Sha1.antt =====
-- `rol32` and `sha1Digest` of src/WebSocketsServer.cpp. A `uint32_t` is a number below 2 ^ 32, and
-- `~b` is the difference of all ones and `b`.
pub mod Padding
use crosspoint_simulator.WebSocket.Base64.{base64_encode}
use crosspoint_simulator.Prelude.{
  ℕ, zero, suc, ◌+◌, ◌-◌, ◌*◌, ◌/◌, ◌%◌, ◌^◌, bit_and, bit_or, bit_xor, List, [], ◌∷◌, ◌++◌, ltb,
  ◌==◌, if◌then◌else◌, length, get_or, drop, Bytes, ◌≡◌, refl, codes,
}
use crosspoint_simulator.WebSocket.Frame.{be64}

abbrev pub u32 : ℕ → ℕ
u32 n = n % 2 ^ 32

unfoldable pub rol32 : ℕ → ℕ → ℕ
rol32 value shift = bit_or (u32 (value * 2 ^ shift)) (value / 2 ^ (32 - shift))

-- `while ((message.size() % 64) != 56) message.push_back(0);` with the number of rounds left.
unfoldable pub pad_zeros : ℕ → Bytes → Bytes
pad_zeros zero message = message
pad_zeros (suc rounds) message =
    let longer = pad_zeros rounds (message ++ 0 ∷ []) in
    if length message % 64 == 56 then message else longer

-- Each residue is met within 64 rounds.
unfoldable pub pad : Bytes → Bytes
unfolding pad_zeros
pad input = pad_zeros 64 (input ++ 0x80 ∷ []) ++ be64 8 (length input * 8 % 2 ^ 64)

pub record Digest : Type 0 where
  pub h0 : ℕ
  pub h1 : ℕ
  pub h2 : ℕ
  pub h3 : ℕ
  pub h4 : ℕ

abbrev initial : Digest
initial = record {
  h0 = 0x67452301;
  h1 = 0xefcdab89;
  h2 = 0x98badcfe;
  h3 = 0x10325476;
  h4 = 0xc3d2e1f0;
}

-- The sixteen words of a block, read big-endian.
unfoldable pub block_words : ℕ → Bytes → List ℕ
block_words zero bs = []
block_words (suc n) bs =
    (get_or bs 0 0 * 2 ^ 24 + get_or bs 1 0 * 2 ^ 16 + get_or bs 2 0 * 2 ^ 8 + get_or bs 3 0)
    ∷ block_words n (drop 4 bs)

-- `w[i]` for i from 16 on; the list is what stands before it, the latest first.
unfoldable pub extend : ℕ → List ℕ → List ℕ
unfolding rol32
extend zero ws = ws
extend (suc n) ws = extend n (
    rol32
      (bit_xor (bit_xor (bit_xor (get_or ws 2 0) (get_or ws 7 0)) (get_or ws 13 0))
        (get_or ws 15 0))
      1
    ∷ ws)

abbrev not32 : ℕ → ℕ
not32 b = 2 ^ 32 - 1 - b

-- The function and the constant of round `i`.
unfoldable pub round_f : ℕ → Digest → ℕ
round_f i s =
    if ltb i 20
    then bit_or (bit_and s.h1 s.h2) (bit_and (not32 s.h1) s.h3)
    else if ltb i 40
    then bit_xor (bit_xor s.h1 s.h2) s.h3
    else if ltb i 60
    then bit_or (bit_or (bit_and s.h1 s.h2) (bit_and s.h1 s.h3)) (bit_and s.h2 s.h3)
    else bit_xor (bit_xor s.h1 s.h2) s.h3

unfoldable pub round_k : ℕ → ℕ
round_k i =
    if ltb i 20
    then 0x5a827999
    else if ltb i 40
    then 0x6ed9eba1
    else if ltb i 60
    then 0x8f1bbcdc
    else 0xca62c1d6

-- The five variables a to e stand in the fields h0 to h4.
unfoldable pub round : ℕ → ℕ → Digest → Digest
unfolding rol32 round_f round_k
round i w s = record {
  h0 = u32 (rol32 s.h0 5 + round_f i s + s.h4 + round_k i + w);
  h1 = s.h0;
  h2 = rol32 s.h1 30;
  h3 = s.h2;
  h4 = s.h3;
}

unfoldable pub rounds : ℕ → List ℕ → Digest → Digest
unfolding round
rounds i [] s = s
rounds i (w ∷ ws) s = rounds (i + 1) ws (round i w s)

abbrev add_digest : Digest → Digest → Digest
add_digest s t = record {
  h0 = u32 (s.h0 + t.h0);
  h1 = u32 (s.h1 + t.h1);
  h2 = u32 (s.h2 + t.h2);
  h3 = u32 (s.h3 + t.h3);
  h4 = u32 (s.h4 + t.h4);
}

abbrev reversed : List ℕ → List ℕ → List ℕ
reversed [] acc = acc
reversed (x ∷ xs) acc = reversed xs (x ∷ acc)

unfoldable pub schedule : Bytes → List ℕ
unfolding block_words extend
schedule block = reversed (extend 64 (reversed (block_words 16 block) [])) []

unfoldable pub blocks : ℕ → Bytes → Digest → Digest
unfolding schedule rounds
blocks zero message s = s
blocks (suc n) message s = blocks n (drop 64 message) (add_digest s (rounds 0 (schedule message) s))

unfoldable pub word_bytes : ℕ → Bytes
word_bytes w = w / 2 ^ 24 % 256 ∷ w / 2 ^ 16 % 256 ∷ w / 2 ^ 8 % 256 ∷ w % 256 ∷ []

unfoldable pub sha1_digest : Bytes → Bytes
unfolding pad be64 blocks word_bytes
sha1_digest input =
    let message = pad input in
    let s = blocks (length message / 64) message initial in
    word_bytes s.h0
    ++ (word_bytes s.h1 ++ (word_bytes s.h2 ++ (word_bytes s.h3 ++ word_bytes s.h4)))

abbrev guid : Bytes
guid = codes "258EAFA5-E914-47DA-95CA-C5AB0DC85B11"

unfoldable pub websocket_accept_value : Bytes → Bytes
unfolding sha1_digest base64_encode
websocket_accept_value key = base64_encode (sha1_digest (key ++ guid))
