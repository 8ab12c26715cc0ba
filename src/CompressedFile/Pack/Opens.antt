-- ===== src/CompressedFile/Pack/Opens.antt =====
-- A container of tools/compress_seed_fonts.py is opened by src/SimCompressedFile.h.
use crosspoint_simulator.Prelude.{
  ℕ, zero, suc, ◌+◌, ◌-◌, ◌*◌, ◌/◌, ◌%◌, ◌^◌, ◌≤◌, ◌<◌, ◌≡◌, ◌∙◌, refl, sym, ap, ap₂, Bool, true,
  List, [], ◌∷◌, ◌++◌, append_assoc, map, flatten, none, some, arith, length, length-append,
  length-map, take, drop, take-append, Bytes, ◌==◌, if◌then◌else◌, if-cases,
}
use native.Mathlib.Nat.{div-add-mod', mod-lt}
use crosspoint_simulator.CompressedFile.{
  Header, CpzFile, Pread, is_header, header_at, parse_header, read_u32, read_u64, read_end,
  read_ends, opened, indexed, open_index, open_header, open_file,
}
use crosspoint_simulator.CompressedFile.Pack.{
  u32, u64, chunks_from, count_of, Fits, ends_from, index_text, head_text, blocks_of, pack,
  digit-sum, read_u32-u32,
}

-- Reads of a file with these bytes.
abbrev pub pread_of : Bytes → Pread
pread_of file off count = take count (drop off file)

abbrev pub header_of : ℕ → Bytes → Header
header_of size whole = record {
  block_size = size;
  original_size = length whole;
  block_count = count_of size whole;
}

long-sum : (n : ℕ) → n < 2 ^ 64 → read_u64 0 (u64 n) ≡ n
unfolding read_u64 read_u32
long-sum n h =
    ap₂ (λ (a b : ℕ). a + b * 2 ^ 32) (digit-sum (n % 2 ^ 32) (omega arith))
      (digit-sum (n / 2 ^ 32) (omega arith))
    ∙ omega arith

abbrev made : ℕ → ℕ → ℕ → Header
made a b c = record { block_size = a; original_size = b; block_count = c }

header_at-head_text :
    (deflate : Bytes → Bytes) (size : ℕ) (whole : Bytes)
    → Fits deflate size whole
    → header_at (head_text size whole) ≡ header_of size whole
unfolding header_at read_u32 read_u64
header_at-head_text deflate size whole fits =
    let count = count_of size whole in
    let long = read_u64 0 (u64 (length whole)) in
    ap (λ (a : ℕ). made a long (read_u32 0 (u32 count)))
      (digit-sum size (omega (arith, fits.size_high)))
    ∙ ap (λ (b : ℕ). made size b (read_u32 0 (u32 count)))
        (long-sum (length whole) (omega (arith, fits.length_fits)))
    ∙ ap (made size (length whole)) (digit-sum count fits.count_fits)

quotient-zero : (q size r n : ℕ) → q * size + r ≡ n + size - 1 → r < size → (q == 0) ≡ (n == 0)
quotient-zero zero size r n e h = ground (arith, e, h)
quotient-zero (suc q) size r n e h = ground (arith, e, h)

is_header-true :
    (h : Header)
    → 1024 ≤ h.block_size
    → h.block_size ≤ 2 ^ 20
    → h.original_size + h.block_size < 2 ^ 64
    → (h.original_size + h.block_size - 1) / h.block_size ≡ h.block_count
    → (h.block_count == 0) ≡ (h.original_size == 0)
    → is_header h ≡ true
is_header-true h low high fits count zeros = ground (arith, low, high, fits, count, zeros)

is_header-header_of :
    (deflate : Bytes → Bytes) (size : ℕ) (whole : Bytes)
    → Fits deflate size whole
    → is_header (header_of size whole) ≡ true
is_header-header_of deflate size whole fits =
    let n = length whole + size - 1 in
    is_header-true (header_of size whole) fits.size_low fits.size_high fits.length_fits refl (
      quotient-zero (n / size) size (n % size) (length whole) (div-add-mod' n size)
        (mod-lt n (omega (arith, fits.size_low))))

parse_header-head_text :
    (deflate : Bytes → Bytes) (size : ℕ) (whole : Bytes)
    → Fits deflate size whole
    → parse_header (head_text size whole) ≡ some (header_of size whole)
unfolding parse_header
parse_header-head_text deflate size whole fits =
    ap (λ (h : Header). if is_header h then some h else none)
      (header_at-head_text deflate size whole fits)
    ∙ ap (λ (b : Bool). if b then some (header_of size whole) else none)
        (is_header-header_of deflate size whole fits)

-- Ends that are not before the one in front of them, and fit their fields.
abbrev Rising : ℕ → List ℕ → Type 0
Rising previous [] = Unit
Rising previous (end ∷ ends) = (previous ≤ end) × (end < 2 ^ 32) × Rising end ends

ends_from-Rising :
    (start : ℕ) (bs : List Bytes)
    → start + length (flatten bs) < 2 ^ 32
    → Rising start (ends_from start bs)
unfolding flatten
ends_from-Rising start [] h = tt
ends_from-Rising start (b ∷ bs) h = (
  omega arith,
  omega (arith, length-append b (flatten bs)),
  ends_from-Rising (start + length b) bs (omega (arith, length-append b (flatten bs))),
)

read_ends-index_text :
    (front : Bytes) (previous : ℕ) (ends : List ℕ)
    → Rising previous ends
    → read_ends (length ends) (length front) previous (front ++ index_text ends) ≡ some ends
unfolding read_ends
read_ends-index_text front previous [] h = refl
read_ends-index_text front previous (end ∷ ends) (le, lt, h) =
    let next = front ++ u32 end in
    let later =
      ap (λ (k : ℕ). read_ends (length ends) k end (front ++ (u32 end ++ index_text ends)))
        {x = length front + 4} {y = length next} (sym (length-append front (u32 end)))
      ∙ ap (read_ends (length ends) (length next) end)
          (sym (append_assoc front (u32 end) (index_text ends)))
      ∙ read_ends-index_text next end ends h in
    ap
      (λ (e : ℕ).
        read_end previous e
          (read_ends (length ends) (length front + 4) e (front ++ (u32 end ++ index_text ends))))
      (read_u32-u32 front end (index_text ends) lt)
    ∙ ap (read_end previous end) later
    ∙ ground (arith, le)

pub length-index_text : (ends : List ℕ) → length (index_text ends) ≡ 4 * length ends
length-index_text [] = refl
length-index_text (end ∷ ends) = omega (arith, length-index_text ends)

pub length-ends_from : (start : ℕ) (bs : List Bytes) → length (ends_from start bs) ≡ length bs
length-ends_from start [] = refl
length-ends_from start (b ∷ bs) = ap suc (length-ends_from (start + length b) bs)

pub length-chunks_from : (n size i : ℕ) (whole : Bytes) → length (chunks_from n size i whole) ≡ n
length-chunks_from zero size i whole = refl
length-chunks_from (suc n) size i whole = ap suc (length-chunks_from n size (i + 1) whole)

-- The file that is opened.
abbrev pub packed_file : (Bytes → Bytes) → ℕ → Bytes → CpzFile
packed_file deflate size whole =
    opened (header_of size whole) (ends_from 0 (blocks_of deflate size whole))

open_index-index_text :
    (h : Header) (ends : List ℕ) (rest : Bytes)
    → h.block_count ≡ length ends
    → Rising 0 ends
    → open_index h (take (4 * h.block_count) (index_text ends ++ rest)) ≡ some (opened h ends)
open_index-index_text h ends rest count rising =
    let index = index_text ends in
    let all = 4 * h.block_count in
    ap (open_index h) (
      ap (λ (n : ℕ). take n (index ++ rest)) {x = all} {y = length index}
        (omega (arith, count, length-index_text ends))
      ∙ take-append index rest)
    ∙ if-cases (λ f. f ≡ some (opened h ends)) (length index == all)
        (λ _.
          ap (indexed h)
            (ap (λ (n : ℕ). read_ends n 0 0 index) count ∙ read_ends-index_text [] 0 ends rising))
        (λ ne. absurd (ground (arith, ne, count, length-index_text ends)))

ends-none :
    (deflate : Bytes → Bytes) (n size : ℕ) (whole : Bytes)
    → (n == 0) ≡ true
    → ends_from 0 (map deflate (chunks_from n size 0 whole)) ≡ []
ends-none deflate zero size whole h = refl
ends-none deflate (suc n) size whole h = absurd (ground (arith, h))

open_header-pack :
    (deflate : Bytes → Bytes) (size : ℕ) (whole : Bytes)
    → Fits deflate size whole
    → open_header (pread_of (pack deflate size whole)) (some (header_of size whole))
      ≡ some (packed_file deflate size whole)
unfolding pack
open_header-pack deflate size whole fits =
    let blocks = blocks_of deflate size whole in
    let h = header_of size whole in
    if-cases (λ f. f ≡ some (packed_file deflate size whole)) (count_of size whole == 0)
      (λ z.
        ap (λ ends. some (opened h ends))
          (sym (ends-none deflate (count_of size whole) size whole z)))
      (λ _.
        open_index-index_text h (ends_from 0 blocks) (flatten blocks)
          (sym (
            length-ends_from 0 blocks
            ∙ length-map deflate (chunks_from (count_of size whole) size 0 whole)
            ∙ length-chunks_from (count_of size whole) size 0 whole))
          (ends_from-Rising 0 blocks (omega (arith, fits.packed_fits))))

pub open_file-pack :
    (deflate : Bytes → Bytes) (size : ℕ) (whole : Bytes)
    → Fits deflate size whole
    → open_file (pread_of (pack deflate size whole)) ≡ some (packed_file deflate size whole)
unfolding open_file pack
open_file-pack deflate size whole fits =
    ap (open_header (pread_of (pack deflate size whole)))
      (parse_header-head_text deflate size whole fits)
    ∙ open_header-pack deflate size whole fits
