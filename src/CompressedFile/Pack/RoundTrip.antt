-- ===== src/CompressedFile/Pack/RoundTrip.antt =====
-- From tools/compress_seed_fonts.py to src/SimCompressedFile.h and back.
use crosspoint_simulator.Prelude.{ℕ, ◌≡◌, refl, List, map, some, length, Bytes}
use crosspoint_simulator.CompressedFile.{CpzFile, Inflate, inflated, open_file, size_of}
use crosspoint_simulator.CompressedFile.Pack.{Fits, pack}
use crosspoint_simulator.CompressedFile.Pack.Opens.{pread_of, packed_file, open_file-pack}
use crosspoint_simulator.CompressedFile.Pack.Reads.{
  packed-Serves, slice_of, read_all, read_all-Serves,
}

-- A container that is packed in blocks of 1 KB to 1 MB, whose numbers fit their fields and whose blocks
-- are inflated to what they were deflated from, is opened with the size of what was packed; and any reads
-- of it, in any order, each get the bytes of that at their offset, as many as are asked for and there.
pub read_all-pack :
    (deflate : Bytes → Bytes) (inflate : Inflate) (size : ℕ) (whole : Bytes) (reads : List (ℕ × ℕ))
    → Fits deflate size whole
    → ((b : Bytes) → inflate (deflate b) (length b) ≡ inflated b)
    → (f : CpzFile) × (open_file (pread_of (pack deflate size whole)) ≡ some f)
      × (size_of f ≡ length whole)
      × (read_all (pread_of (pack deflate size whole)) inflate reads f ≡ map (slice_of whole) reads)
read_all-pack deflate inflate size whole reads fits inverse = (
  packed_file deflate size whole,
  open_file-pack deflate size whole fits,
  refl,
  read_all-Serves (pread_of (pack deflate size whole)) inflate whole reads
      (packed_file deflate size whole) (packed-Serves deflate inflate size whole fits inverse),
)
