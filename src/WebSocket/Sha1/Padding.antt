-- ===== src/WebSocket/Sha1/Padding.antt =====
-- The padding of FIPS 180-4, and the sizes of what is computed from it.
use crosspoint_simulator.Prelude.{
  ℕ, zero, suc, ◌-◌, ◌*◌, ◌%◌, ◌^◌, ◌≤◌, ◌≡◌, refl, sym, ap, ◌∙◌, [], ◌∷◌, ◌++◌, arith, length,
  replicate, Bytes, append-nil, append_assoc, length-append, length-replicate, ==_ne, ==_iff,
}
use crosspoint_simulator.WebSocket.Frame.{be64}
use crosspoint_simulator.WebSocket.Frame.RoundTrip.{length-be64}
use crosspoint_simulator.WebSocket.Sha1.{
  pad_zeros, pad, word_bytes, sha1_digest, websocket_accept_value,
}

-- How many zeros a message lacks to 56 modulo 64.
abbrev lacking : Bytes → ℕ
lacking m = (120 - length m % 64) % 64

pad_zeros-lacking :
    (n rounds : ℕ) (m : Bytes)
    → lacking m ≡ n
    → n ≤ rounds
    → pad_zeros rounds m ≡ m ++ replicate n 0
unfolding pad_zeros
pad_zeros-lacking zero zero m e h = sym (append-nil m)
pad_zeros-lacking zero (suc r) m e h =
    rw ((==_iff (length m % 64) 56).1 (omega arith)) (sym (append-nil m))
pad_zeros-lacking (suc n) zero m e h = absurd (omega arith)
pad_zeros-lacking (suc n) (suc r) m e h = rw (==_ne (length m % 64) 56 (omega arith)) (
    pad_zeros-lacking n r (m ++ 0 ∷ []) (omega (arith, length-append m (0 ∷ []))) (omega arith)
    ∙ append_assoc m (0 ∷ []) (replicate n 0))

-- The message, a bit 1, the fewest zeros that fill a block up to eight bytes, and the length in
-- bits; the result is a number of whole blocks.
pad_lem :
    (input : Bytes)
    → let k = (119 - length input % 64) % 64 in
      (pad input ≡ ((input ++ 0x80 ∷ []) ++ replicate k 0) ++ be64 8 (length input * 8 % 2 ^ 64))
      × (length (pad input) % 64 ≡ 0)
unfolding pad
pad_lem input =
    let k = (119 - length input % 64) % 64 in
    let marked = input ++ 0x80 ∷ [] in
    let tail = be64 8 (length input * 8 % 2 ^ 64) in
    let size = length-append input (0x80 ∷ []) in
    let filled = pad_zeros-lacking k 64 marked (omega (arith, size)) (omega arith) in
    (
      ap (λ (m : Bytes). m ++ tail) filled,
      rw filled (
          omega (
            arith,
            size,
            length-append (marked ++ replicate k 0) tail,
            length-append marked (replicate k 0),
            length-replicate {A = ℕ} k 0,
            length-be64 8 (length input * 8 % 2 ^ 64),
          )),
    )

length-word_bytes : (w : ℕ) → length (word_bytes w) ≡ 4
unfolding word_bytes
length-word_bytes w = refl

-- A digest has twenty bytes, and the value that answers a key has 28 characters.
pub length-sha1_digest : (input : Bytes) → length (sha1_digest input) ≡ 20
unfolding sha1_digest
length-sha1_digest input = refl

pub length-websocket_accept_value : (key : Bytes) → length (websocket_accept_value key) ≡ 28
unfolding websocket_accept_value
length-websocket_accept_value key = refl
