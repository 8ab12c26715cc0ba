-- ===== src/ReadingLog/Line/Clean.antt =====
-- Control bytes in the parts of a line of the log of src/ReadingLog.h.
use crosspoint_simulator.Prelude.{
  ℤ, pos, negsuc, ℕ, zero, suc, ◌+◌, ◌/◌, ◌%◌, ◌≤◌, ◌≡◌, refl, Bool, true, false, [], ◌∷◌, ◌++◌,
  arith, leb, ltb, ◌==◌, ◌&&◌, if◌then◌else◌, Bytes, codes, All, All-append, if-cases, ◌∙◌, ap₂,
}
use crosspoint_simulator.Http.Response.{show_number, digits}
use crosspoint_simulator.ReadingLog.Line.{
  nibble, hex_text, escaped_byte, escaped, key_text, signed, add_u, add_i, add_s, add_hex,
}

abbrev pub Clean : Bytes → Type 0
Clean bs = All (λ c. 32 ≤ c) bs

abbrev pub is_clean : Bytes → Bool
is_clean [] = true
is_clean (c ∷ cs) = leb 32 c && is_clean cs

pub is_clean-Clean : (bs : Bytes) → is_clean bs ≡ true → Clean bs
is_clean-Clean [] h = tt
is_clean-Clean (c ∷ cs) h = (ground (arith, h), is_clean-Clean cs (ground (arith, h)))

append-Clean : (xs ys : Bytes) → Clean xs → Clean ys → Clean (xs ++ ys)
append-Clean xs ys h k = All-append (λ c. 32 ≤ c) xs ys h k

digits-Clean : (fuel n : ℕ) → Clean (digits fuel n)
unfolding digits
digits-Clean zero n = tt
digits-Clean (suc fuel) n =
    if-cases Clean (ltb n 10) (λ _. (omega arith, tt))
      (λ _.
        append-Clean (digits fuel (n / 10)) ((b'0' + n % 10) ∷ []) (digits-Clean fuel (n / 10))
          (omega arith, tt))

show_number-Clean : (n : ℕ) → Clean (show_number n)
unfolding show_number
show_number-Clean n = digits-Clean (n + 1) n

nibble-le : (upper : Bool) (d : ℕ) → 32 ≤ nibble upper d
nibble-le true d = ground arith
nibble-le false d = ground arith

hex_text-Clean : (upper : Bool) (n v : ℕ) → Clean (hex_text upper n v)
unfolding hex_text
hex_text-Clean upper zero v = tt
hex_text-Clean upper (suc n) v =
    append-Clean (hex_text upper n (v / 16)) (nibble upper (v % 16) ∷ [])
      (hex_text-Clean upper n (v / 16)) (nibble-le upper (v % 16), tt)

plain-Clean : (c : ℕ) → Clean (if ltb c 32 then codes "\\u" ++ hex_text false 4 c else c ∷ [])
plain-Clean c =
    if-cases Clean (ltb c 32)
      (λ _.
        append-Clean (codes "\\u") (hex_text false 4 c) (is_clean-Clean (codes "\\u") refl)
          (hex_text-Clean false 4 c))
      (λ h. (ground (arith, h), tt))

escaped_byte-Clean : (c : ℕ) → Clean (escaped_byte c)
unfolding escaped_byte
escaped_byte-Clean c =
    if-cases Clean (c == b'"') (λ _. is_clean-Clean (codes "\\\"") refl)
      (λ _.
        if-cases Clean (c == b'\\') (λ _. is_clean-Clean (codes "\\\\") refl)
          (λ _.
            if-cases Clean (c == b'\n') (λ _. is_clean-Clean (codes "\\n") refl)
              (λ _.
                if-cases Clean (c == b'\r') (λ _. is_clean-Clean (codes "\\r") refl)
                  (λ _.
                    if-cases Clean (c == b'\t') (λ _. is_clean-Clean (codes "\\t") refl)
                      (λ _. plain-Clean c)))))

escaped-Clean : (s : Bytes) → Clean (escaped s)
unfolding escaped
escaped-Clean [] = tt
escaped-Clean (c ∷ cs) =
    append-Clean (escaped_byte c) (escaped cs) (escaped_byte-Clean c) (escaped-Clean cs)

pub is_clean-append : (xs ys : Bytes) → is_clean (xs ++ ys) ≡ (is_clean xs && is_clean ys)
is_clean-append [] ys = refl
is_clean-append (x ∷ xs) ys = rw (is_clean-append xs ys) (ground arith)

Clean-is_clean : (bs : Bytes) → Clean bs → is_clean bs ≡ true
Clean-is_clean [] h = refl
Clean-is_clean (c ∷ cs) (h, rest) = rw (Clean-is_clean cs rest) (ground (arith, h))

key_text-is_clean : (key rest : Bytes) → Clean rest → is_clean (key_text key ++ rest) ≡ is_clean key
key_text-is_clean key rest h =
    is_clean-append (key_text key) rest
    ∙ ap₂ ◌&&◌ (is_clean-append key (codes "\":")) (Clean-is_clean rest h)
    ∙ ground arith

pub add_u-is_clean : (key : Bytes) (v : ℕ) → is_clean (add_u key v) ≡ is_clean key
unfolding add_u
add_u-is_clean key v = key_text-is_clean key (show_number v) (show_number-Clean v)

signed-Clean : (v : ℤ) → Clean (signed v)
signed-Clean (pos n) = show_number-Clean n
signed-Clean (negsuc n) = (omega arith, show_number-Clean (n + 1))

pub add_i-is_clean : (key : Bytes) (v : ℤ) → is_clean (add_i key v) ≡ is_clean key
unfolding add_i
add_i-is_clean key v = key_text-is_clean key (signed v) (signed-Clean v)

-- A text in quotation marks.
quoted-Clean : (s : Bytes) → Clean s → Clean (b'"' ∷ s ++ b'"' ∷ [])
quoted-Clean s h = (omega arith, append-Clean s (b'"' ∷ []) h (omega arith, tt))

pub add_s-is_clean : (key v : Bytes) → is_clean (add_s key v) ≡ is_clean key
unfolding add_s
add_s-is_clean key v =
    key_text-is_clean key (b'"' ∷ escaped v ++ b'"' ∷ [])
      (quoted-Clean (escaped v) (escaped-Clean v))

pub add_hex-is_clean : (key : Bytes) (v : ℕ) → is_clean (add_hex key v) ≡ is_clean key
unfolding add_hex
add_hex-is_clean key v =
    key_text-is_clean key (b'"' ∷ hex_text true 6 v ++ b'"' ∷ [])
      (quoted-Clean (hex_text true 6 v) (hex_text-Clean true 6 v))

pub hex_text-is_clean : (upper : Bool) (n v : ℕ) → is_clean (hex_text upper n v) ≡ true
hex_text-is_clean upper n v = Clean-is_clean (hex_text upper n v) (hex_text-Clean upper n v)

pub ruleset clean = (
  is_clean-append, add_u-is_clean, add_i-is_clean, add_s-is_clean, add_hex-is_clean,
  hex_text-is_clean,
)
