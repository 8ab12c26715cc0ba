-- ===== src/WebSocket/Base64/RoundTrip.antt =====
-- Decoding by RFC 4648 gives the encoded bytes back.
use crosspoint_simulator.Prelude.{
  ℕ, zero, suc, ◌+◌, ◌*◌, ◌/◌, ◌%◌, ◌<◌, ◌≡◌, refl, Bool, true, false, ◌&&◌, not, [], ◌∷◌, arith,
  ◌==◌, Bytes, All, length, ap, ◌++◌, ap₂, ◌^◌,
}
use crosspoint_simulator.WebSocket.Base64.{
  value, quantum, char_at, base64_encode, base64_decode, triple,
}

-- `test` at every number below `limit`, one after the other.
table : (ℕ → Bool) → ℕ → Bool
table test zero = true
table test (suc limit) = elim (table test limit) [ true ↦ test limit | false ↦ false ]

table-entry : (test : ℕ → Bool) (limit i : ℕ) → table test limit ≡ true → i < limit → test i ≡ true
unfolding table
table-entry test zero i whole small = absurd (omega arith)
table-entry test (suc limit) i whole small = ground (arith, table-entry test limit i)

abbrev read_back : ℕ → Bool
read_back i = value (char_at i) == i && not (char_at i == b'=')

read_back-table : table read_back 64 ≡ true
unfolding table value char_at
read_back-table = refl

value-char_at : (i : ℕ) → i < 64 → (value (char_at i) ≡ i) × ((char_at i == b'=') ≡ false)
value-char_at i h = ground (arith, table-entry read_back 64 i read_back-table h)

-- One quantum of four characters, for three bytes and for the two and the one at the end.
quantum_three :
    (a b c i j k l : ℕ)
    → i < 64
    → j < 64
    → k < 64
    → l < 64
    → i * 4 + j / 16 ≡ a
    → j % 16 * 16 + k / 4 ≡ b
    → k % 4 * 64 + l ≡ c
    → quantum (char_at i) (char_at j) (char_at k) (char_at l) ≡ a ∷ b ∷ c ∷ []
unfolding quantum
quantum_three a b c i j k l hi hj hk hl ea eb ec =
    ground (arith, value-char_at i hi, value-char_at j hj, value-char_at k hk, value-char_at l hl)

quantum_two :
    (a b i j k : ℕ)
    → i < 64
    → j < 64
    → k < 64
    → i * 4 + j / 16 ≡ a
    → j % 16 * 16 + k / 4 ≡ b
    → quantum (char_at i) (char_at j) (char_at k) b'=' ≡ a ∷ b ∷ []
unfolding quantum
quantum_two a b i j k hi hj hk ea eb =
    ground (arith, value-char_at i hi, value-char_at j hj, value-char_at k hk)

quantum_one :
    (a i j : ℕ)
    → i < 64
    → j < 64
    → i * 4 + j / 16 ≡ a
    → quantum (char_at i) (char_at j) b'=' b'=' ≡ a ∷ []
unfolding quantum
quantum_one a i j hi hj ea = ground (arith, value-char_at i hi, value-char_at j hj)

-- Whatever bytes are encoded, the decoder of the RFC gives them back.
base64_decode-encode : (xs : Bytes) → All (λ b. b < 256) xs → base64_decode (base64_encode xs) ≡ xs
unfolding base64_decode base64_encode
base64_decode-encode [] h = refl
base64_decode-encode (b0 ∷ []) h =
    let t = triple b0 0 0 in
    ap (λ (q : Bytes). q ++ [])
      (quantum_one b0 (t / 2 ^ 18 % 64) (t / 2 ^ 12 % 64) (omega arith) (omega arith) (omega arith))
base64_decode-encode (b0 ∷ b1 ∷ []) h =
    let t = triple b0 b1 0 in
    ap (λ (q : Bytes). q ++ [])
      (quantum_two b0 b1 (t / 2 ^ 18 % 64) (t / 2 ^ 12 % 64) (t / 2 ^ 6 % 64) (omega arith)
        (omega arith) (omega arith) (omega arith) (omega arith))
base64_decode-encode (b0 ∷ b1 ∷ b2 ∷ rest) h =
    let t = triple b0 b1 b2 in
    ap₂ ◌++◌
      (quantum_three b0 b1 b2 (t / 2 ^ 18 % 64) (t / 2 ^ 12 % 64) (t / 2 ^ 6 % 64) (t % 64)
        (omega arith) (omega arith) (omega arith) (omega arith) (omega arith) (omega arith)
        (omega arith))
      (base64_decode-encode rest h.1.1.1)

-- Four characters for each three bytes begun.
pub length-base64_encode : (xs : Bytes) → length (base64_encode xs) ≡ (length xs + 2) / 3 * 4
unfolding base64_encode
length-base64_encode [] = refl
length-base64_encode (b0 ∷ []) = refl
length-base64_encode (b0 ∷ b1 ∷ []) = refl
length-base64_encode (b0 ∷ b1 ∷ b2 ∷ rest) = omega (arith, length-base64_encode rest)
