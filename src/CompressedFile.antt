-- ===== src/CompressedFile.antt =====
-- `simcpz` and `SimCpzFile` of src/SimCompressedFile.h: a file of compressed blocks that is read at any
-- offset. `pread` is what a `pread` of some bytes at an offset finds, fewer where it fails or the file ends;
-- `inflate` is what InflateStream makes of a compressed block when it is asked for some bytes.
pub mod Serves
pub mod Pack
pub mod Bounds
mod Tests
use crosspoint_simulator.Prelude.{
  ℕ, zero, suc, ◌+◌, ◌-◌, ◌*◌, ◌/◌, ◌%◌, ◌^◌, Bool, true, false, ◌&&◌, ◌||◌, not, List, [], ◌∷◌,
  ◌++◌, Option, none, some, ltb, leb, ◌==◌, if◌then◌else◌, length, take, drop, get_or, min, Bytes,
  bytes_eq,
}

abbrev pub magic : Bytes
magic = b'C' ∷ b'P' ∷ b'Z' ∷ b'1' ∷ []

abbrev pub header_bytes : ℕ
header_bytes = 24

abbrev pub min_block_size : ℕ
min_block_size = 1024

abbrev pub max_block_size : ℕ
max_block_size = 2 ^ 20

-- The bits of the four bytes do not overlap, so `|` is a sum.
unfoldable pub read_u32 : ℕ → Bytes → ℕ
read_u32 i p =
    get_or p i 0
    + get_or p (i + 1) 0 * 2 ^ 8
    + get_or p (i + 2) 0 * 2 ^ 16
    + get_or p (i + 3) 0 * 2 ^ 24

unfoldable pub read_u64 : ℕ → Bytes → ℕ
unfolding read_u32
read_u64 i p = read_u32 i p + read_u32 (i + 4) p * 2 ^ 32

pub record Header : Type 0 where
  pub block_size : ℕ
  pub original_size : ℕ
  pub block_count : ℕ

-- The checks on the numbers of a header. The sum is of 64 bits. A size for which it wraps is refused by the
-- check in front of it; the last check alone would refuse it too, for the quotient is then 0.
abbrev pub is_header : Header → Bool
is_header h =
    not (ltb h.block_size min_block_size)
    && not (ltb max_block_size h.block_size)
    && not (ltb (2 ^ 64 - 1 - (h.block_size - 1)) h.original_size)
    && ((h.original_size + h.block_size - 1) % 2 ^ 64 / h.block_size == h.block_count)
    && ((h.block_count == 0 && (h.original_size == 0))
        || (not (h.block_count == 0) && not (h.original_size == 0)))

abbrev pub header_at : Bytes → Header
unfolding read_u32 read_u64
header_at buf = record {
  block_size = read_u32 4 buf;
  original_size = read_u64 8 buf;
  block_count = read_u32 16 buf;
}

unfoldable pub parse_header : Bytes → Option Header
unfolding header_at bytes_eq
parse_header buf =
    if ltb (length buf) header_bytes
    then none
    else if not (bytes_eq (take 4 buf) magic)
    then none
    else if is_header (header_at buf)
    then some (header_at buf)
    else none

abbrev pub data_start_of : Header → ℕ
data_start_of h = header_bytes + 4 * h.block_count

pub record CpzFile : Type 0 where
  pub header : Header
  pub ends : List ℕ
  pub data_start : ℕ
  pub block : Bytes
  pub cached : Option ℕ
  pub block_len : ℕ

-- One more end in front of the others, or the index is not monotonic.
abbrev pub read_end : ℕ → ℕ → Option (List ℕ) → Option (List ℕ)
read_end previous end none = none
read_end previous end (some ends) = if ltb end previous then none else some (end ∷ ends)

-- The ends of `count` blocks, each not before the one in front of it.
unfoldable pub read_ends : ℕ → ℕ → ℕ → Bytes → Option (List ℕ)
unfolding read_u32
read_ends zero i previous raw = some []
read_ends (suc count) i previous raw =
    let end = read_u32 i raw in read_end previous end (read_ends count (i + 4) end raw)

abbrev pub opened : Header → List ℕ → CpzFile
opened h ends = record {
  header = h;
  ends = ends;
  data_start = data_start_of h;
  block = [];
  cached = none;
  block_len = 0;
}

abbrev pub indexed : Header → Option (List ℕ) → Option CpzFile
indexed h none = none
indexed h (some ends) = some (opened h ends)

-- A block index of the right length.
abbrev pub open_index : Header → Bytes → Option CpzFile
open_index h raw =
    if length raw == 4 * h.block_count then indexed h (read_ends h.block_count 0 0 raw) else none

abbrev pub Pread : Type 0
Pread = ℕ → ℕ → Bytes

abbrev pub open_header : Pread → Option Header → Option CpzFile
open_header pread none = none
open_header pread (some h) =
    if h.block_count == 0
    then some (opened h [])
    else open_index h (pread header_bytes (4 * h.block_count))

-- `open` on a file that is new: `none` where it fails.
unfoldable pub open_file : Pread → Option CpzFile
unfolding parse_header read_ends
open_file pread =
    let head = pread 0 header_bytes in
    if length head == header_bytes then open_header pread (parse_header head) else none

-- What InflateStream does: its state cannot be allocated, the block is broken, or the bytes are there.
pub data Inflated : Type 0 where
  no_memory broken : Inflated
  inflated : Bytes → Inflated

abbrev pub Inflate : Type 0
Inflate = Bytes → ℕ → Inflated

abbrev pub block_begin : ℕ → List ℕ → ℕ
block_begin zero ends = 0
block_begin (suc index) ends = get_or ends index 0

abbrev pub compressed_size : ℕ → List ℕ → ℕ
compressed_size index ends = get_or ends index 0 - block_begin index ends

-- The bytes of a block before it is compressed.
abbrev pub plain_size : Header → ℕ → ℕ
plain_size h index = min (h.original_size - index * h.block_size) h.block_size

abbrev pub take_block : ℕ → ℕ → CpzFile → Inflated → Bool × CpzFile
take_block index plain f no_memory = (false, f)
take_block index plain f broken = (false, record f { cached = none })
take_block index plain f (inflated bytes) =
    (true, record f { cached = some index; block = bytes; block_len = plain })

-- What is read of a compressed block; nothing is read of an empty one.
abbrev pub compressed_block : Pread → ℕ → CpzFile → Bytes
compressed_block pread index f =
    let size = compressed_size index f.ends in
    if size == 0 then [] else pread (f.data_start + block_begin index f.ends) size

abbrev pub is_cached : ℕ → Option ℕ → Bool
is_cached index none = false
is_cached index (some i) = i == index

-- A block that is broken leaves the bytes of `block` as they may be; they are not read again.
unfoldable pub load_block : Pread → Inflate → ℕ → CpzFile → Bool × CpzFile
load_block pread inflate index f =
    if is_cached index f.cached
    then (true, f)
    else let comp = compressed_block pread index f in
      let plain = plain_size f.header index in
      if length comp == compressed_size index f.ends
      then take_block index plain f (inflate comp plain)
      else (false, f)

-- The loop of `read` with what is done so far; `none` is the result -1. A round reads a byte at least.
unfoldable pub read_from : ℕ → Pread → Inflate → ℕ → ℕ → Bytes → CpzFile → Option Bytes × CpzFile
unfolding load_block
read_from zero pread inflate off count done f = (none, f)
read_from (suc fuel) pread inflate off count done f =
    let at = off + length done in
    let (loaded, next) = load_block pread inflate (at / f.header.block_size) f in
    let within = at % f.header.block_size in
    let part =
      take (min (next.block_len - within) (count - length done)) (drop within next.block) in
    let rest = read_from fuel pread inflate off count (done ++ part) next in
    if leb count (length done) then (some done, f) else if loaded then rest else (none, next)

unfoldable pub read : Pread → Inflate → ℕ → ℕ → CpzFile → Option Bytes × CpzFile
unfolding read_from
read pread inflate off count f =
    let size = f.header.original_size in
    let wanted = min count (size - off) in
    if leb size off then (some [], f) else read_from (wanted + 1) pread inflate off wanted [] f

abbrev pub size_of : CpzFile → ℕ
size_of f = f.header.original_size
