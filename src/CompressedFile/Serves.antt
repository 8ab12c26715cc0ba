-- ===== src/CompressedFile/Serves.antt =====
-- Reading of a file of src/SimCompressedFile.h whose blocks are known.
use crosspoint_simulator.Prelude.{
  ℕ, zero, ◌+◌, ◌-◌, ◌*◌, ◌/◌, ◌%◌, ◌≤◌, ◌<◌, ◌≡◌, ◌∙◌, refl, sym, ap, subst, Bool, true, arith,
  ◌==◌, if-cases, length, take, drop, Bytes, drop-take, take-take, drop-drop, length-take, ◌++◌,
  ap₂, take-add, length-append, length-drop, take-nil, drop-all, take-min,
}
use native.Mathlib.Nat.{div-add-mod', mod-lt}
use crosspoint_simulator.CompressedFile.{
  CpzFile, Pread, Inflate, inflated, compressed_size, compressed_block, plain_size, is_cached,
  take_block, load_block, Inflated, read_from, Option, read, Header, min, suc, some, leb, [],
}

-- The bytes of a block.
abbrev pub chunk : ℕ → ℕ → Bytes → Bytes
chunk size i whole = take size (drop (i * size) whole)

-- The blocks are the compressed blocks of `whole`, and so is the one that is kept.
pub record Serves (pread : Pread) (inflate : Inflate) (whole : Bytes) (f : CpzFile) : Type 0 where
  pub size : f.header.original_size ≡ length whole
  pub positive : 0 < f.header.block_size
  pub read_block :
      (i : ℕ)
      → i * f.header.block_size < length whole
      → length (compressed_block pread i f) ≡ compressed_size i f.ends
  pub inflate_block :
      (i : ℕ)
      → i * f.header.block_size < length whole
      → inflate (compressed_block pread i f) (plain_size f.header i)
        ≡ inflated (chunk f.header.block_size i whole)
  pub kept :
      (i : ℕ)
      → is_cached i f.cached ≡ true
      → (f.block ≡ chunk f.header.block_size i whole) × (f.block_len ≡ plain_size f.header i)

-- The block is there, the rest of the file as it was.
abbrev Loaded : Pread → Inflate → Bytes → ℕ → CpzFile → Bool × CpzFile → Type 0
Loaded pread inflate whole i f (loaded, next) =
    (loaded ≡ true)
    × Serves pread inflate whole next
    × (next.header ≡ f.header)
    × (next.block ≡ chunk f.header.block_size i whole)
    × (next.block_len ≡ plain_size f.header i)

module _ (pread : Pread) (inflate : Inflate) (whole : Bytes) where
  set_cached-Serves :
      (i : ℕ) (f : CpzFile)
      → Serves pread inflate whole f
      → Loaded pread inflate whole i f
          (take_block i (plain_size f.header i) f (inflated (chunk f.header.block_size i whole)))
  set_cached-Serves i f s = (
    refl,
    record {
      size = s.size;
      positive = s.positive;
      read_block = s.read_block;
      inflate_block = s.inflate_block;
      kept = λ j e. (
        ap (λ (k : ℕ). chunk f.header.block_size k whole) {x = i} {y = j} (ground (arith, e)),
        ap (λ (k : ℕ). plain_size f.header k) {x = i} {y = j} (ground (arith, e)),
      );
    },
    refl,
    refl,
    refl,
  )

  load_block-Loaded :
      (i : ℕ) (f : CpzFile)
      → Serves pread inflate whole f
      → i * f.header.block_size < length whole
      → Loaded pread inflate whole i f (load_block pread inflate i f)
  unfolding load_block
  load_block-Loaded i f s h =
      let comp = compressed_block pread i f in
      let plain = plain_size f.header i in
      if-cases (Loaded pread inflate whole i f) (is_cached i f.cached)
        (λ c. (refl, s, refl, (s.kept i c).0, (s.kept i c).1))
        (λ _.
          if-cases (Loaded pread inflate whole i f) (length comp == compressed_size i f.ends)
            (λ _.
              subst (λ (r : Inflated). Loaded pread inflate whole i f (take_block i plain f r))
                (sym (s.inflate_block i h)) (set_cached-Serves i f s))
            (λ ne. absurd (ground (arith, ne, s.read_block i h))))

  -- A part of the block at an offset is a part of the whole.
  part-chunk :
      (size at k : ℕ)
      → at % size + k ≤ size
      → take k (drop (at % size) (chunk size (at / size) whole)) ≡ take k (drop at whole)
  part-chunk size at k h =
      ap (take k) (drop-take (at % size) size (drop (at / size * size) whole))
      ∙ take-take k (size - at % size) (drop (at % size) (drop (at / size * size) whole))
          (omega arith)
      ∙ ap (take k) (
          drop-drop (at % size) (at / size * size) whole
          ∙ ap (λ (n : ℕ). drop n whole) (div-add-mod' at size))

  -- The bytes at an offset are read, and the file serves on.
  abbrev pub Done : ℕ → ℕ → CpzFile → Option Bytes × CpzFile → Type 0
  Done off count f (result, next) =
      (result ≡ some (take count (drop off whole)))
      × Serves pread inflate whole next
      × (next.header ≡ f.header)

  -- How much of a block a round takes.
  abbrev part_size : Header → ℕ → ℕ → ℕ
  part_size h at missing = min (plain_size h (at / h.block_size) - at % h.block_size) missing

  part_size-bounds :
      (f : CpzFile) (at missing : ℕ)
      → Serves pread inflate whole f
      → at < length whole
      → 0 < missing
      → (0 < part_size f.header at missing)
        × (part_size f.header at missing ≤ missing)
        × (at % f.header.block_size + part_size f.header at missing ≤ f.header.block_size)
        × (at + part_size f.header at missing ≤ length whole)
  part_size-bounds f at missing s h m =
      let e = div-add-mod' at f.header.block_size in
      let l = mod-lt at s.positive in
      (
        omega (arith, e, l, s.size),
        omega arith,
        omega (arith, e, l, s.size),
        omega (arith, e, l, s.size),
      )

  length-part : (at k : ℕ) → at + k ≤ length whole → length (take k (drop at whole)) ≡ k
  length-part at k h =
      length-take k (drop at whole) ∙ ap (min k) (length-drop at whole) ∙ omega arith

  -- The part of a loaded block that a round takes.
  part_of : ℕ → ℕ → Header → CpzFile → Bytes
  part_of at missing h next =
      take (min (next.block_len - at % h.block_size) missing) (drop (at % h.block_size) next.block)

  part-Loaded :
      (at missing : ℕ) (f : CpzFile) (loaded : Bool × CpzFile)
      → Loaded pread inflate whole (at / f.header.block_size) f loaded
      → at % f.header.block_size + part_size f.header at missing ≤ f.header.block_size
      → part_of at missing f.header loaded.1 ≡ take (part_size f.header at missing) (drop at whole)
  unfolding part_of
  part-Loaded at missing f loaded (_, _, _, block, len) h =
      let within = at % f.header.block_size in
      ap₂ (λ (l : ℕ) (b : Bytes). take (min (l - within) missing) (drop within b)) len block
      ∙ part-chunk f.header.block_size at (part_size f.header at missing) h

  -- What is done with one more part.
  done-part :
      (off k : ℕ) (done part : Bytes)
      → done ≡ take (length done) (drop off whole)
      → part ≡ take k (drop (off + length done) whole)
      → length part ≡ k
      → done ++ part ≡ take (length (done ++ part)) (drop off whole)
  done-part off k done part e p len =
      ap₂ ◌++◌ e (p ∙ ap (take k) (sym (drop-drop (length done) off whole)))
      ∙ sym (take-add (length done) k (drop off whole))
      ∙ ap (λ (n : ℕ). take n (drop off whole)) (omega (arith, length-append done part, len))

  read_from-Done :
      (fuel off count : ℕ) (done : Bytes) (f : CpzFile)
      → Serves pread inflate whole f
      → off + count ≤ length whole
      → length done ≤ count
      → done ≡ take (length done) (drop off whole)
      → count < length done + fuel
      → Done off count f (read_from fuel pread inflate off count done f)
  unfolding read_from part_of
  read_from-Done zero off count done f s h le e enough = absurd (omega arith)
  read_from-Done (suc fuel) off count done f s h le e enough =
      if-cases (Done off count f) (leb count (length done))
        (λ l. (
          ap some (
              e
              ∙ ap (λ (n : ℕ). take n (drop off whole)) {x = length done} {y = count}
                  (ground (arith, l, le))),
          s,
          refl,
        ))
        (λ more.
          let at = off + length done in
          let missing = count - length done in
          let some_left : length done < count = ground (arith, more) in
          let low : at / f.header.block_size * f.header.block_size < length whole =
            omega (arith, div-add-mod' at f.header.block_size) in
          let loaded = load_block pread inflate (at / f.header.block_size) f in
          let there = load_block-Loaded (at / f.header.block_size) f s low in
          let (ok, serves, header, _, _) = there in
          let (grows, fits, in_block, in_whole) =
            part_size-bounds f at missing s (omega arith) (omega arith) in
          let part = part_of at missing f.header loaded.1 in
          let taken = part-Loaded at missing f loaded there in_block in
          let len = ap length taken ∙ length-part at (part_size f.header at missing) in_whole in
          let (result, later, same) =
            read_from-Done fuel off count (done ++ part) loaded.1 serves h
              (omega (arith, length-append done part, len))
              (done-part off (part_size f.header at missing) done part e taken len)
              (omega (arith, length-append done part, len)) in
          if-cases (Done off count f) loaded.0 (λ _. (result, later, same ∙ header))
            (λ no. absurd (cc (ok, no))))

  take-nothing : (xs : Bytes) → take 0 xs ≡ []
  take-nothing xs = refl

  -- From a file whose blocks are the compressed blocks of `whole`, a read at an offset gets the bytes of
  -- `whole` there, as many as are asked for and there, whatever was read before; and this is so again
  -- after it.
  pub read-Serves :
      (off count : ℕ) (f : CpzFile)
      → Serves pread inflate whole f
      → ((read pread inflate off count f).0 ≡ some (take count (drop off whole)))
        × Serves pread inflate whole (read pread inflate off count f).1
  unfolding read
  read-Serves off count f s =
      let size = f.header.original_size in
      let wanted = min count (size - off) in
      if-cases
        (λ (r : Option Bytes × CpzFile).
          (r.0 ≡ some (take count (drop off whole))) × Serves pread inflate whole r.1)
        (leb size off)
        (λ past. (
          ap some (
              sym (take-nil count)
              ∙ ap (take count) (sym (drop-all off whole (ground (arith, past, s.size))))),
          s,
        ))
        (λ before.
          let (result, later, _) =
            read_from-Done (wanted + 1) off wanted [] f s (ground (arith, before, s.size))
              (omega arith) (sym (take-nothing (drop off whole))) (omega arith) in
          (
            result
                ∙ ap some (
                    ap (λ (n : ℕ). take n (drop off whole))
                      (omega (arith, s.size, length-drop off whole))
                    ∙ take-min count (drop off whole)),
            later,
          ))
