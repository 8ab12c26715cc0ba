-- ===== src/WebSocket/Socket/Reads.antt =====
-- What a reader sees of a source of bytes: the bytes in order, however they were cut.
use crosspoint_simulator.Prelude.{
  ℕ, zero, suc, ◌+◌, ◌-◌, ◌≤◌, ◌<◌, ◌≡◌, refl, sym, ap, ◌∙◌, [], ◌∷◌, ◌++◌, Option, none, some,
  arith, leb, length, take, drop, Bytes, ◌>>=◌, Bool-cases, inl, inr, length-append,
}
use crosspoint_simulator.WebSocket.Socket.{
  segment, interrupted, failed, Socket, put_back, recv_all, contents, split, after_bytes,
}

-- The rest of the source, seen as bytes.
abbrev pub seen : {S A : Type 0} → (S → Bytes) → Option (A × S) → Option (A × Bytes)
seen view none = none
seen view (some (a, s)) = some (a, view s)

-- What the frame reader needs of the code that hands it bytes.
pub record IsSource {S : Type 0} (recv : S → ℕ → Option (Bytes × S)) (view : S → Bytes)
    : Type 0 where
  pub reads : (s : S) (n : ℕ) → seen view (recv s n) ≡ split (view s) n

pub seen-bind :
    {S A B : Type 0} (view : S → Bytes) (m : Option (A × S)) (m' : Option (A × Bytes))
    (k : A × S → Option (B × S)) (k' : A × Bytes → Option (B × Bytes))
    → seen view m ≡ m'
    → ((a : A) (s : S) → seen view (k (a, s)) ≡ k' (a, view s))
    → seen view (m >>= k) ≡ (m' >>= k')
seen-bind view none m' k k' e h = rw (← e)
seen-bind view (some (a, s)) m' k k' e h = rw (← e) (h a s)

pub take_past : (n : ℕ) (xs ys : Bytes) → n ≤ length xs → take n (xs ++ ys) ≡ take n xs
take_past zero xs ys h = refl
take_past (suc n) [] ys h = absurd (omega arith)
take_past (suc n) (x ∷ xs) ys h = ap (◌∷◌ x) (take_past n xs ys (omega arith))

pub drop_past : (n : ℕ) (xs ys : Bytes) → n ≤ length xs → drop n (xs ++ ys) ≡ drop n xs ++ ys
drop_past zero xs ys h = refl
drop_past (suc n) [] ys h = absurd (omega arith)
drop_past (suc n) (x ∷ xs) ys h = drop_past n xs ys (omega arith)

pub split_within :
    (n : ℕ) (xs ys : Bytes) → n ≤ length xs → split (xs ++ ys) n ≡ some (take n xs, drop n xs ++ ys)
unfolding split
split_within n xs ys h =
    ground (arith, length-append xs ys, take_past n xs ys h, drop_past n xs ys h)

pub take_beyond :
    (n : ℕ) (xs ys : Bytes) → length xs ≤ n → take n (xs ++ ys) ≡ xs ++ take (n - length xs) ys
take_beyond n [] ys h = ap (λ (k : ℕ). take k ys) (omega arith)
take_beyond zero (x ∷ xs) ys h = absurd (omega arith)
take_beyond (suc n) (x ∷ xs) ys h =
    ap (◌∷◌ x) (take_beyond n xs ys (omega arith) ∙ ap (λ (k : ℕ). xs ++ take k ys) (omega arith))

drop_beyond : (n : ℕ) (xs ys : Bytes) → length xs ≤ n → drop n (xs ++ ys) ≡ drop (n - length xs) ys
drop_beyond n [] ys h = ap (λ (k : ℕ). drop k ys) (omega arith)
drop_beyond zero (x ∷ xs) ys h = absurd (omega arith)
drop_beyond (suc n) (x ∷ xs) ys h =
    drop_beyond n xs ys (omega arith) ∙ ap (λ (k : ℕ). drop k ys) (omega arith)

pub split_past :
    (n : ℕ) (xs ys : Bytes)
    → length xs ≤ n
    → split (xs ++ ys) n ≡ (do (zs, r) ← split ys (n - length xs); some (xs ++ zs, r))
unfolding split
split_past n xs ys h =
    ground (arith, length-append xs ys, take_beyond n xs ys h, drop_beyond n xs ys h)

contents-put_back : (bs : Bytes) (s : Socket) → contents (put_back bs s) ≡ bs ++ contents s
unfolding contents put_back
contents-put_back [] s = refl
contents-put_back (b ∷ bs) s = refl

seen-after_bytes :
    (xs : Bytes) (r : Option (Bytes × Socket))
    → seen contents (after_bytes xs r) ≡ (do (zs, rest) ← seen contents r; some (xs ++ zs, rest))
seen-after_bytes xs none = refl
seen-after_bytes xs (some (ys, s)) = refl

pub split-zero : (bs : Bytes) → split bs 0 ≡ some ([], bs)
unfolding split
split-zero bs = ground arith

split-nil : (n : ℕ) → split [] (suc n) ≡ none
unfolding split
split-nil n = ground arith

split_segment :
    (b n : ℕ) (bs ys : Bytes)
    → length bs < n + 1
    → (do (zs, r) ← split ys (n - length bs); some (b ∷ bs ++ zs, r)) ≡ split (b ∷ bs ++ ys) (suc n)
split_segment b n bs ys h =
    ap (λ (k : ℕ). do (zs, r) ← split ys k; some (b ∷ bs ++ zs, r)) (omega arith)
    ∙ sym (split_past (suc n) (b ∷ bs) ys (omega arith))

-- However the network cuts the stream into segments, and whatever signals come in between,
-- `recvAll` returns the next bytes of the stream, or fails when there are not enough.
recv_all-reads : (s : Socket) (n : ℕ) → seen contents (recv_all s n) ≡ split (contents s) n
unfolding recv_all contents
recv_all-reads s zero = sym (split-zero (contents s))
recv_all-reads [] (suc n) = sym (split-nil n)
recv_all-reads (interrupted ∷ s) (suc n) = recv_all-reads s (suc n)
recv_all-reads (failed ∷ s) (suc n) = sym (split-nil n)
recv_all-reads (segment b bs ∷ s) (suc n) = elim (Bool-cases (leb n (length bs))) [
  | inl whole ↦
      rw (whole, contents-put_back)
        (sym (split_within (suc n) (b ∷ bs) (contents s) (ground arith)))
  | inr short ↦
      rw (short, seen-after_bytes, recv_all-reads s (n - length bs))
        (split_segment b n bs (contents s) (ground arith))
]

pub recv_all-IsSource : IsSource recv_all contents
recv_all-IsSource = record { reads = recv_all-reads }

seen-split : (bs : Bytes) (n : ℕ) → seen (λ (x : Bytes). x) (split bs n) ≡ split bs n
unfolding split
seen-split bs n = ground arith

pub split-IsSource : IsSource split (λ bs. bs)
split-IsSource = record { reads = seen-split }
