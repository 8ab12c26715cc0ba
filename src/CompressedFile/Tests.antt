-- ===== src/CompressedFile/Tests.antt =====
-- Containers of src/SimCompressedFile.h that are packed, opened and read.
use crosspoint_simulator.Prelude.{
  ℕ, ◌/◌, ◌^◌, ◌≤◌, ◌<◌, ◌*◌, ◌+◌, ◌≡◌, refl, List, [], ◌∷◌, ◌++◌, map, flatten, none, some, arith,
  length, get_or, replicate, Bytes,
}
use crosspoint_simulator.CompressedFile.{
  CpzFile, Inflate, inflated, broken, block_begin, open_file, size_of,
}
use crosspoint_simulator.CompressedFile.Bounds.{open_file-InBounds}
use crosspoint_simulator.CompressedFile.Pack.{Fits, pack}
use crosspoint_simulator.CompressedFile.Pack.Opens.{pread_of, packed_file, open_file-pack}
use crosspoint_simulator.CompressedFile.Pack.Reads.{slice_of, read_all}
use crosspoint_simulator.CompressedFile.Pack.RoundTrip.{read_all-pack}

-- A block is stored behind one byte.
abbrev store : Bytes → Bytes
store b = 1 ∷ b

abbrev unstore : Inflate
unstore [] n = broken
unstore (c ∷ b) n = inflated b

abbrev two_blocks : Bytes
two_blocks = replicate 1024 7 ++ 8 ∷ 9 ∷ []

two_blocks-Fits : Fits store 1024 two_blocks
unfolding flatten
two_blocks-Fits = record {
  size_low = omega arith;
  size_high = omega arith;
  length_fits = omega arith;
  count_fits = omega arith;
  packed_fits = omega arith;
}

abbrev some_reads : List (ℕ × ℕ)
some_reads = (1023, 2) ∷ (0, 1) ∷ (1025, 9) ∷ (5000, 1) ∷ []

slices :
    map (slice_of two_blocks) some_reads
    ≡ some (7 ∷ 8 ∷ []) ∷ some (7 ∷ []) ∷ some (9 ∷ []) ∷ some [] ∷ []
slices = refl

read_all-pack_example :
    (f : CpzFile) × (open_file (pread_of (pack store 1024 two_blocks)) ≡ some f)
    × (size_of f ≡ length two_blocks)
    × (read_all (pread_of (pack store 1024 two_blocks)) unstore some_reads f
        ≡ map (slice_of two_blocks) some_reads)
read_all-pack_example =
    read_all-pack store unstore 1024 two_blocks some_reads two_blocks-Fits (λ b. refl)

open_file-InBounds_example :
    (1024 ≤ 1024)
    × (1024 ≤ 2 ^ 20)
    × (1024 / 1024 < length (packed_file store 1024 two_blocks).ends)
    × (block_begin (1024 / 1024) (packed_file store 1024 two_blocks).ends
        ≤ get_or (packed_file store 1024 two_blocks).ends (1024 / 1024) 0)
    × (length (packed_file store 1024 two_blocks).ends * 1024 < length two_blocks + 1024)
open_file-InBounds_example =
    open_file-InBounds (pread_of (pack store 1024 two_blocks)) (packed_file store 1024 two_blocks)
      1024 (open_file-pack store 1024 two_blocks two_blocks-Fits) (omega arith)

truncated : open_file (pread_of (67 ∷ 80 ∷ 90 ∷ 49 ∷ [])) ≡ none
unfolding open_file
truncated = refl
