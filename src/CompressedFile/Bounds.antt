-- ===== src/CompressedFile/Bounds.antt =====
-- What `open` of src/SimCompressedFile.h makes sure of, whatever the file holds.
use crosspoint_simulator.Prelude.{
  ℕ, zero, suc, ◌+◌, ◌-◌, ◌*◌, ◌/◌, ◌≤◌, ◌<◌, ◌≡◌, ◌∙◌, ◌%◌, refl, sym, ap, true, List, [], ◌∷◌,
  Option, none, some, arith, length, Bytes, ltb, ◌==◌, if-cases, take, bytes_eq, not, get_or, ◌^◌,
  subst,
}
use native.Mathlib.Nat.{mod-eq_of_lt, div-add-mod', mod-lt, lt_of_mul-lt-mul_right, div-mul-le_self}
use crosspoint_simulator.CompressedFile.{
  Header, CpzFile, Pread, is_header, header_at, parse_header, read_end, read_ends, indexed,
  open_header, open_file, magic, header_bytes, block_begin, read_u32, size_of,
}

-- No end is before the one in front of it.
abbrev pub Rising : ℕ → List ℕ → Type 0
Rising previous [] = Unit
Rising previous (end ∷ ends) = (previous ≤ end) × Rising end ends

-- A file as it is opened.
abbrev pub IsOpened : CpzFile → Type 0
IsOpened f = (is_header f.header ≡ true) × (length f.ends ≡ f.header.block_count) × Rising 0 f.ends

abbrev IfSome {ℓ} : {A : Type ℓ} → (A → Type 0) → Option A → Type 0
IfSome P none = Unit
IfSome P (some a) = P a

abbrev Ends : ℕ → ℕ → List ℕ → Type 0
Ends count previous ends = (length ends ≡ count) × Rising previous ends

read_end-Ends :
    (count previous end : ℕ) (rest : Option (List ℕ))
    → IfSome (Ends count end) rest
    → IfSome (Ends (suc count) previous) (read_end previous end rest)
read_end-Ends count previous end none h = tt
read_end-Ends count previous end (some ends) h =
    if-cases (IfSome (Ends (suc count) previous)) (ltb end previous) (λ _. tt)
      (λ le. (ap suc h.0, (ground (arith, le), h.1)))

read_ends-Ends :
    (count i previous : ℕ) (raw : Bytes)
    → IfSome (Ends count previous) (read_ends count i previous raw)
unfolding read_ends
read_ends-Ends zero i previous raw = (refl, tt)
read_ends-Ends (suc count) i previous raw =
    let end = read_u32 i raw in
    read_end-Ends count previous end (read_ends count (i + 4) end raw)
      (read_ends-Ends count (i + 4) end raw)

parse_header-IsHeader : (buf : Bytes) → IfSome (λ h. is_header h ≡ true) (parse_header buf)
unfolding parse_header
parse_header-IsHeader buf =
    if-cases (IfSome (λ h. is_header h ≡ true)) (ltb (length buf) header_bytes) (λ _. tt)
      (λ _.
        if-cases (IfSome (λ h. is_header h ≡ true)) (not (bytes_eq (take 4 buf) magic)) (λ _. tt)
          (λ _.
            if-cases (IfSome (λ h. is_header h ≡ true)) (is_header (header_at buf)) (λ e. e)
              (λ _. tt)))

indexed-IsOpened :
    (h : Header) (ends : Option (List ℕ))
    → is_header h ≡ true
    → IfSome (Ends h.block_count 0) ends
    → IfSome IsOpened (indexed h ends)
indexed-IsOpened h none is e = tt
indexed-IsOpened h (some ends) is (count, rising) = (is, count, rising)

open_header-IsOpened :
    (pread : Pread) (h : Option Header)
    → IfSome (λ h. is_header h ≡ true) h
    → IfSome IsOpened (open_header pread h)
open_header-IsOpened pread none is = tt
open_header-IsOpened pread (some h) is =
    let raw = pread header_bytes (4 * h.block_count) in
    if-cases (IfSome IsOpened) (h.block_count == 0) (λ z. (is, ground (arith, z), tt))
      (λ _.
        if-cases (IfSome IsOpened) (length raw == 4 * h.block_count)
          (λ _.
            indexed-IsOpened h (read_ends h.block_count 0 0 raw) is
              (read_ends-Ends h.block_count 0 0 raw))
          (λ _. tt))

open_file-IfOpened : (pread : Pread) → IfSome IsOpened (open_file pread)
unfolding open_file
open_file-IfOpened pread =
    let head = pread 0 header_bytes in
    if-cases (IfSome IsOpened) (length head == header_bytes)
      (λ _. open_header-IsOpened pread (parse_header head) (parse_header-IsHeader head)) (λ _. tt)

header_fields :
    (h : Header)
    → is_header h ≡ true
    → (1024 ≤ h.block_size)
      × (h.block_size ≤ 2 ^ 20)
      × (h.original_size + h.block_size - 1 < 2 ^ 64)
      × ((h.original_size + h.block_size - 1) % 2 ^ 64 / h.block_size ≡ h.block_count)
header_fields h e = ground (arith, e)

header-bounds :
    (h : Header)
    → is_header h ≡ true
    → (1024 ≤ h.block_size)
      × (h.block_size ≤ 2 ^ 20)
      × ((h.original_size + h.block_size - 1) / h.block_size ≡ h.block_count)
header-bounds h e =
    let (low, high, room, count) = header_fields h e in
    (low, high, ap (λ (n : ℕ). n / h.block_size) (sym (mod-eq_of_lt room)) ∙ count)

block-lt :
    (off size count total : ℕ)
    → 0 < size
    → (total + size - 1) / size ≡ count
    → off < total
    → off / size < count
block-lt off size count total pos e h =
    let n = total + size - 1 in
    let above : off / size * size < n / size * size =
      omega (arith, div-add-mod' n size, mod-lt n pos, div-mul-le_self off size, h) in
    subst (λ (c : ℕ). off / size < c) e (lt_of_mul-lt-mul_right size above)

Rising-step :
    (i previous : ℕ) (ends : List ℕ)
    → Rising previous ends
    → suc i < length ends
    → get_or ends i 0 ≤ get_or ends (suc i) 0
Rising-step i previous [] rising h = absurd (omega arith)
Rising-step i previous (end ∷ []) rising h = absurd (omega arith)
Rising-step zero previous (end ∷ end' ∷ ends) rising h = rising.1.0
Rising-step (suc i) previous (end ∷ end' ∷ ends) rising h =
    Rising-step i end (end' ∷ ends) rising.1 (omega arith)

block_begin-le :
    (i : ℕ) (ends : List ℕ) → Rising 0 ends → i < length ends → block_begin i ends ≤ get_or ends i 0
block_begin-le zero ends rising h = omega arith
block_begin-le (suc i) ends rising h = Rising-step i 0 ends rising h

-- Whatever a file holds, if it is opened, its blocks are of 1 KB to 1 MB; each offset in front of its
-- size lies in a block that the index has, which does not end before it begins; and the index has no more
-- blocks than the size needs.
pub open_file-InBounds :
    (pread : Pread) (f : CpzFile) (off : ℕ)
    → open_file pread ≡ some f
    → off < size_of f
    → (1024 ≤ f.header.block_size)
      × (f.header.block_size ≤ 2 ^ 20)
      × (off / f.header.block_size < length f.ends)
      × (block_begin (off / f.header.block_size) f.ends
          ≤ get_or f.ends (off / f.header.block_size) 0)
      × (length f.ends * f.header.block_size < size_of f + f.header.block_size)
open_file-InBounds pread f off e h =
    let (is, count, rising) = subst (IfSome IsOpened) e (open_file-IfOpened pread) in
    let (low, high, blocks) = header-bounds f.header is in
    let inside =
      subst (λ (n : ℕ). off / f.header.block_size < n) (sym count)
        (block-lt off f.header.block_size f.header.block_count f.header.original_size
          (omega (arith, low)) blocks h) in
    let needed : length f.ends * f.header.block_size < size_of f + f.header.block_size =
      subst (λ (n : ℕ). n * f.header.block_size < size_of f + f.header.block_size)
        (blocks ∙ sym count)
        (omega (
          arith,
          low,
          div-mul-le_self (f.header.original_size + f.header.block_size - 1) f.header.block_size,
        )) in
    (low, high, inside, block_begin-le (off / f.header.block_size) f.ends rising inside, needed)
