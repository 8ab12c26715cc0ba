-- ===== src/Http/Url/Spelling.antt =====
-- What `urlDecodeStd` makes of a text in which every byte is spelled in one of its legal ways.
use crosspoint_simulator.Prelude.{
  if◌then◌else◌, ℕ, ◌+◌, ◌*◌, Bool, false, List, [], ◌∷◌, ◌++◌, Bytes, map, ◌≡◌, ◌<◌, ◌==◌, ◌||◌,
  ap, refl, arith, ltb, ◌-◌,
}
use crosspoint_simulator.Http.Url.{hex_value, decode_at, decode_from, url_decode, some}

-- A byte by itself, a space as `+`, or a percent sign with two hex digits; `true` is the upper case.
pub data Spelling : Type 0 where
  literal : (c : ℕ) → (c == b'%' || c == b'+') ≡ false → Spelling
  plus : Spelling
  percent : (hi lo : ℕ) → hi < 16 → lo < 16 → Bool → Bool → Spelling

abbrev pub hex_digit : Bool → ℕ → ℕ
hex_digit upper d =
    if ltb d 10 then b'0' + d else if upper then b'A' + (d - 10) else b'a' + (d - 10)

abbrev pub spell : Spelling → Bytes
spell (literal c _) = c ∷ []
spell plus = b'+' ∷ []
spell (percent hi lo _ _ u v) = b'%' ∷ hex_digit u hi ∷ hex_digit v lo ∷ []

abbrev pub value : Spelling → ℕ
value (literal c _) = c
value plus = b' '
value (percent hi lo _ _ _ _) = hi * 16 + lo

abbrev pub spelled : List Spelling → Bytes
spelled [] = []
spelled (s ∷ ss) = spell s ++ spelled ss

hex_value-digit : (upper : Bool) (d : ℕ) → d < 16 → hex_value (hex_digit upper d) ≡ some d
unfolding hex_value
hex_value-digit upper d h = ground arith

decode_at-literal :
    (c : ℕ) (rest : Bytes) → (c == b'%' || c == b'+') ≡ false → decode_at c rest ≡ (c, 0)
unfolding decode_at
decode_at-literal c [] h = ap (λ (b : ℕ). (b, 0)) (ground arith)
decode_at-literal c (a ∷ []) h = ap (λ (b : ℕ). (b, 0)) (ground arith)
decode_at-literal c (a ∷ b ∷ rest) h = ground arith

decode_at-plus : (rest : Bytes) → decode_at b'+' rest ≡ (b' ', 0)
unfolding decode_at
decode_at-plus [] = refl
decode_at-plus (a ∷ []) = refl
decode_at-plus (a ∷ b ∷ rest) = refl

-- Decoding gives back the bytes that were spelled, whatever spelling each of them has: itself, a
-- plus sign for a space, or a percent sign with two hex digits of either case.
pub url_decode-spelled : (ss : List Spelling) → url_decode (spelled ss) ≡ map value ss
unfolding url_decode decode_from
url_decode-spelled [] = refl
url_decode-spelled (literal c h ∷ ss) =
    rw (decode_at-literal c (spelled ss) h) (ap (◌∷◌ c) (url_decode-spelled ss))
url_decode-spelled (plus ∷ ss) =
    rw (decode_at-plus (spelled ss)) (ap (◌∷◌ b' ') (url_decode-spelled ss))
url_decode-spelled (percent hi lo h k u v ∷ ss) =
    rw (hex_value-digit u hi h, hex_value-digit v lo k)
      (ap (◌∷◌ (hi * 16 + lo)) (url_decode-spelled ss))
