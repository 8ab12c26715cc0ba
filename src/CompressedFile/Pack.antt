-- ===== src/CompressedFile/Pack.antt =====
-- `compress_one` of tools/compress_seed_fonts.py: the container that src/SimCompressedFile.h reads.
pub mod Opens
pub mod Reads
pub mod RoundTrip
use crosspoint_simulator.Prelude.{
  refl, bytes_eq, take, if◌then◌else◌, ℕ, zero, suc, ◌+◌, ◌-◌, ◌*◌, ◌/◌, ◌%◌, ◌^◌, ◌<◌, ◌≡◌, ◌∙◌,
  ap, ap₂, List, [], ◌∷◌, ◌++◌, map, flatten, arith, length, get_or, Bytes, ◌≤◌,
}
use crosspoint_simulator.CompressedFile.{magic, read_u32}
use crosspoint_simulator.CompressedFile.Serves.{chunk}

-- `<I` of `struct.pack`.
abbrev pub u32 : ℕ → Bytes
u32 n = n % 256 ∷ n / 2 ^ 8 % 256 ∷ n / 2 ^ 16 % 256 ∷ n / 2 ^ 24 % 256 ∷ []

abbrev pub u64 : ℕ → Bytes
u64 n = u32 (n % 2 ^ 32) ++ u32 (n / 2 ^ 32)

-- The blocks from the one with the index `i` on.
abbrev pub chunks_from : ℕ → ℕ → ℕ → Bytes → List Bytes
chunks_from zero size i whole = []
chunks_from (suc n) size i whole = chunk size i whole ∷ chunks_from n size (i + 1) whole

abbrev pub count_of : ℕ → Bytes → ℕ
count_of size whole = (length whole + size - 1) / size

-- The end of each block behind `start`.
abbrev pub ends_from : ℕ → List Bytes → List ℕ
ends_from start [] = []
ends_from start (b ∷ bs) = (start + length b) ∷ ends_from (start + length b) bs

abbrev pub index_text : List ℕ → Bytes
index_text [] = []
index_text (end ∷ ends) = u32 end ++ index_text ends

abbrev pub head_text : ℕ → Bytes → Bytes
head_text size whole = magic ++ u32 size ++ u64 (length whole) ++ u32 (count_of size whole) ++ u32 0

abbrev pub blocks_of : (Bytes → Bytes) → ℕ → Bytes → List Bytes
blocks_of deflate size whole = map deflate (chunks_from (count_of size whole) size 0 whole)

-- The numbers of the container fit their fields.
pub record Fits (deflate : Bytes → Bytes) (size : ℕ) (whole : Bytes) : Type 0 where
  pub size_low : 1024 ≤ size
  pub size_high : size ≤ 2 ^ 20
  pub length_fits : length whole + size < 2 ^ 64
  pub count_fits : count_of size whole < 2 ^ 32
  pub packed_fits : length (flatten (blocks_of deflate size whole)) < 2 ^ 32

unfoldable pub pack : (Bytes → Bytes) → ℕ → Bytes → Bytes
unfolding flatten
pack deflate size whole =
    head_text size whole
    ++ (index_text (ends_from 0 (blocks_of deflate size whole))
        ++ flatten (blocks_of deflate size whole))

-- A file that is a container already is copied as it is.
unfoldable pub compress_one : (Bytes → Bytes) → ℕ → Bytes → Bytes
unfolding pack bytes_eq
compress_one deflate size whole =
    if bytes_eq (take 4 whole) magic then whole else pack deflate size whole

-- A container is not packed again.
compress_one-pack :
    (deflate : Bytes → Bytes) (size size' : ℕ) (whole : Bytes)
    → compress_one deflate size' (pack deflate size whole) ≡ pack deflate size whole
unfolding compress_one pack bytes_eq
compress_one-pack deflate size size' whole = refl

pub digit-sum :
    (n : ℕ)
    → n < 2 ^ 32
    → n % 256 + n / 2 ^ 8 % 256 * 2 ^ 8 + n / 2 ^ 16 % 256 * 2 ^ 16 + n / 2 ^ 24 % 256 * 2 ^ 24 ≡ n
digit-sum n h = omega arith

get_or-behind :
    (front : Bytes) (i : ℕ) (text : Bytes)
    → get_or (front ++ text) (length front + i) 0 ≡ get_or text i 0
get_or-behind [] i text = ap (λ (k : ℕ). get_or text k 0) (omega arith)
get_or-behind (b ∷ front) i text =
    ap (λ (k : ℕ). get_or (b ∷ front ++ text) k 0) {y = suc (length front + i)} (omega arith)
    ∙ get_or-behind front i text

-- A number is read where it stands.
pub read_u32-u32 :
    (front : Bytes) (n : ℕ) (rest : Bytes)
    → n < 2 ^ 32
    → read_u32 (length front) (front ++ (u32 n ++ rest)) ≡ n
unfolding read_u32
read_u32-u32 front n rest h =
    let text = u32 n ++ rest in
    ap₂ ◌+◌
      (ap₂ ◌+◌
        (ap₂ ◌+◌
          (ap (λ (k : ℕ). get_or (front ++ text) k 0) (omega arith) ∙ get_or-behind front 0 text)
          (ap (λ (d : ℕ). d * 2 ^ 8) (get_or-behind front 1 text)))
        (ap (λ (d : ℕ). d * 2 ^ 16) (get_or-behind front 2 text)))
      (ap (λ (d : ℕ). d * 2 ^ 24) (get_or-behind front 3 text))
    ∙ digit-sum n h
