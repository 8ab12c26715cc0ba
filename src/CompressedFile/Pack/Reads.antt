-- ===== src/CompressedFile/Pack/Reads.antt =====
-- Reads of a container of tools/compress_seed_fonts.py by src/SimCompressedFile.h.
use crosspoint_simulator.Prelude.{
  ℕ, zero, suc, ◌+◌, ◌-◌, ◌*◌, ◌<◌, ◌≡◌, ◌∙◌, refl, sym, ap, ap₂, List, [], ◌∷◌, ◌++◌, append_assoc,
  map, flatten, Option, some, arith, length, length-append, length-take, length-drop, take, drop,
  take-append, drop-append, drop-drop, get_or, Bytes, ◌==◌, if-cases, min, length-map,
}
use native.Mathlib.Nat.{div-add-mod', mod-lt, lt_of_mul-lt-mul_right}
use crosspoint_simulator.CompressedFile.{
  CpzFile, Pread, Inflate, inflated, block_begin, compressed_size, compressed_block, plain_size,
  data_start_of, read,
}
use crosspoint_simulator.CompressedFile.Serves.{chunk, Serves, read-Serves}
use crosspoint_simulator.CompressedFile.Pack.{
  chunks_from, count_of, Fits, ends_from, index_text, blocks_of, pack,
}
use crosspoint_simulator.CompressedFile.Pack.Opens.{
  pread_of, header_of, packed_file, length-index_text, length-ends_from, length-chunks_from,
}

-- Where a block begins in a list of ends that starts at `start`.
abbrev begin_from : ℕ → ℕ → List ℕ → ℕ
begin_from start zero ends = start
begin_from start (suc i) ends = get_or ends i 0

begin_from-suc :
    (start end i : ℕ) (ends : List ℕ)
    → begin_from start (suc i) (end ∷ ends) ≡ begin_from end i ends
begin_from-suc start end zero ends = refl
begin_from-suc start end (suc i) ends = refl

block_begin-begin_from : (i : ℕ) (ends : List ℕ) → block_begin i ends ≡ begin_from 0 i ends
block_begin-begin_from zero ends = refl
block_begin-begin_from (suc i) ends = refl

abbrev size_from : ℕ → ℕ → List ℕ → ℕ
size_from start i ends = get_or ends i 0 - begin_from start i ends

size_from-block :
    (start i : ℕ) (bs : List Bytes)
    → i < length bs
    → size_from start i (ends_from start bs) ≡ length (get_or bs i [])
size_from-block start i [] h = absurd (omega arith)
size_from-block start zero (b ∷ bs) h = omega arith
size_from-block start (suc i) (b ∷ bs) h =
    let end = start + length b in
    ap (λ (n : ℕ). get_or (ends_from end bs) i 0 - n)
      (begin_from-suc start end i (ends_from end bs))
    ∙ size_from-block end i bs (omega arith)

drop-begin :
    (front : Bytes) (start i : ℕ) (bs : List Bytes)
    → length front ≡ start
    → i < length bs
    → take
        (length (get_or bs i []))
        (drop (begin_from start i (ends_from start bs)) (front ++ flatten bs))
      ≡ get_or bs i []
unfolding flatten
drop-begin front start i [] e h = absurd (omega arith)
drop-begin front start zero (b ∷ bs) e h =
    ap (λ (n : ℕ). take (length b) (drop n (front ++ (b ++ flatten bs)))) (sym e)
    ∙ ap (take (length b)) (drop-append front (b ++ flatten bs))
    ∙ take-append b (flatten bs)
drop-begin front start (suc i) (b ∷ bs) e h =
    let end = start + length b in
    let taken = take (length (get_or bs i [])) in
    ap (λ (n : ℕ). taken (drop n (front ++ (b ++ flatten bs))))
      (begin_from-suc start end i (ends_from end bs))
    ∙ ap (λ (t : Bytes). taken (drop (begin_from end i (ends_from end bs)) t))
        (sym (append_assoc front b (flatten bs)))
    ∙ drop-begin (front ++ b) end i bs (omega (arith, e, length-append front b)) (omega arith)

get_or-chunks :
    (deflate : Bytes → Bytes) (n size k i : ℕ) (whole : Bytes)
    → i < n
    → get_or (map deflate (chunks_from n size k whole)) i [] ≡ deflate (chunk size (k + i) whole)
get_or-chunks deflate zero size k i whole h = absurd (omega arith)
get_or-chunks deflate (suc n) size k zero whole h =
    ap (λ (j : ℕ). deflate (chunk size j whole)) (omega arith)
get_or-chunks deflate (suc n) size k (suc i) whole h =
    get_or-chunks deflate n size (k + 1) i whole (omega arith)
    ∙ ap (λ (j : ℕ). deflate (chunk size j whole)) (omega arith)

count_of-lt :
    (size i : ℕ) (whole : Bytes) → 0 < size → i * size < length whole → i < count_of size whole
count_of-lt size i whole pos h =
    let n = length whole + size - 1 in
    let below : i * size < count_of size whole * size =
      omega (arith, div-add-mod' n size, mod-lt n pos, h) in
    lt_of_mul-lt-mul_right size below

module _ (deflate : Bytes → Bytes) (size : ℕ) (whole : Bytes) where
  count-blocks : count_of size whole ≡ length (blocks_of deflate size whole)
  count-blocks = sym (
      length-map deflate (chunks_from (count_of size whole) size 0 whole)
      ∙ length-chunks_from (count_of size whole) size 0 whole)

  drop-data_start :
      drop (data_start_of (header_of size whole)) (pack deflate size whole)
      ≡ flatten (blocks_of deflate size whole)
  unfolding pack
  drop-data_start =
      let blocks = blocks_of deflate size whole in
      let index = index_text (ends_from 0 blocks) in
      let all = 4 * count_of size whole in
      sym (drop-drop all 24 (pack deflate size whole))
      ∙ ap (λ (n : ℕ). drop n (index ++ flatten blocks)) {x = all} {y = length index}
          (omega (
            arith,
            count-blocks,
            length-index_text (ends_from 0 blocks),
            length-ends_from 0 blocks,
          ))
      ∙ drop-append index (flatten blocks)

  packed-block :
      (i : ℕ)
      → i < count_of size whole
      → (compressed_block (pread_of (pack deflate size whole)) i (packed_file deflate size whole)
          ≡ deflate (chunk size i whole))
        × (compressed_size i (ends_from 0 (blocks_of deflate size whole))
            ≡ length (deflate (chunk size i whole)))
  packed-block i h =
      let blocks = blocks_of deflate size whole in
      let ends = ends_from 0 blocks in
      let start = data_start_of (header_of size whole) in
      let file = pack deflate size whole in
      let inside : i < length blocks = omega (arith, h, count-blocks) in
      let this =
        get_or-chunks deflate (count_of size whole) size 0 i whole h
        ∙ ap (λ (j : ℕ). deflate (chunk size j whole)) {y = i} (omega arith) in
      let begin = block_begin-begin_from i ends in
      let sized = ap (λ (n : ℕ). get_or ends i 0 - n) begin ∙ size_from-block 0 i blocks inside in
      let where_read = λ (n : ℕ). take n (drop (start + block_begin i ends) file) in
      (
        if-cases (λ t. t ≡ where_read (compressed_size i ends)) (compressed_size i ends == 0)
              (λ z. ap where_read {x = 0} (ground (arith, z))) (λ _. refl)
            ∙ ap where_read sized
            ∙ ap (take (length (get_or blocks i []))) (
                sym (drop-drop (block_begin i ends) start file)
                ∙ ap₂ (λ (n : ℕ) (t : Bytes). drop n t) begin drop-data_start)
            ∙ drop-begin [] 0 i blocks refl inside
            ∙ this,
        sized ∙ ap length this,
      )

module _ (deflate : Bytes → Bytes) (inflate : Inflate) (size : ℕ) (whole : Bytes) where
  length-chunk : (i : ℕ) → length (chunk size i whole) ≡ plain_size (header_of size whole) i
  length-chunk i =
      length-take size (drop (i * size) whole)
      ∙ ap (min size) (length-drop (i * size) whole)
      ∙ omega arith

  pub packed-Serves :
      Fits deflate size whole
      → ((b : Bytes) → inflate (deflate b) (length b) ≡ inflated b)
      → Serves (pread_of (pack deflate size whole)) inflate whole (packed_file deflate size whole)
  packed-Serves fits inverse =
      let positive : 0 < size = omega (arith, fits.size_low) in
      let block = λ (i : ℕ) (h : i * size < length whole).
        packed-block deflate size whole i (count_of-lt size i whole positive h) in
      record {
        size = refl;
        positive = positive;
        read_block = λ i h. ap length (block i h).0 ∙ sym (block i h).1;
        inflate_block =
            λ i h. ap₂ inflate (block i h).0 (sym (length-chunk i)) ∙ inverse (chunk size i whole);
        kept = λ i e. absurd (cc e);
      }

-- What a read at an offset should get.
abbrev pub slice_of : Bytes → ℕ × ℕ → Option Bytes
slice_of whole (off, count) = some (take count (drop off whole))

-- The results of reads at these offsets, of as many bytes each.
unfoldable pub read_all : Pread → Inflate → List (ℕ × ℕ) → CpzFile → List (Option Bytes)
unfolding read
read_all pread inflate [] f = []
read_all pread inflate ((off, count) ∷ reads) f =
    let (result, next) = read pread inflate off count f in
    result ∷ read_all pread inflate reads next

pub read_all-Serves :
    (pread : Pread) (inflate : Inflate) (whole : Bytes) (reads : List (ℕ × ℕ)) (f : CpzFile)
    → Serves pread inflate whole f
    → read_all pread inflate reads f ≡ map (slice_of whole) reads
unfolding read_all
read_all-Serves pread inflate whole [] f s = refl
read_all-Serves pread inflate whole ((off, count) ∷ reads) f s =
    let (result, later) = read-Serves pread inflate whole off count f s in
    ap₂ ◌∷◌ result
      (read_all-Serves pread inflate whole reads (read pread inflate off count f).1 later)
