-- ===== src/FileTransfer/Request/Reads.antt =====
-- The two loops of `parseRequest` in src/CrossPointWebServer.cpp over the stream of a socket.
use crosspoint_simulator.Prelude.{
  ℕ, zero, suc, ◌+◌, ◌-◌, ◌≤◌, ◌≡◌, ◌∙◌, refl, ap, sym, [], ◌∷◌, ◌++◌, append_assoc, append-nil,
  length-append, length-take, take-append-drop, Option, none, some, leb, arith, if◌then◌else◌,
  length, take, drop, Bytes, ◌>>=◌, find, find-append, find-within, Bool-cases, Option-cases, inl,
  inr, min, ◌⊎◌, ◌≢◌, leb→le,
}
use crosspoint_simulator.WebSocket.Socket.{Socket, segment, interrupted, failed, put_back}
use crosspoint_simulator.WebSocket.Socket.Reads.{take_beyond}
use crosspoint_simulator.WebSocket.Handshake.{recv_some, blank_line}
use crosspoint_simulator.FileTransfer.Request.{max_head, buffer_size, read_head, read_rest}

-- The bytes that a socket hands over before it closes or fails; here a signal is a failure.
unfoldable pub stream : Socket → Bytes
stream (segment b bs ∷ s) = b ∷ bs ++ stream s
stream _ = []

pub stream-put_back : (bs : Bytes) (s : Socket) → stream (put_back bs s) ≡ bs ++ stream s
unfolding stream put_back
stream-put_back [] s = refl
stream-put_back (b ∷ bs) s = refl

-- A `recv` hands over the next bytes of the stream, one at least and no more than it is asked for.
abbrev pub Received : ℕ → Socket → Type 0
Received n s =
    (got : Bytes) × (s' : Socket) × (recv_some n s ≡ some (got, s'))
    × (got ++ stream s' ≡ stream s)
    × (1 ≤ length got)
    × (length got ≤ n)

pub recv_some-stream : (n : ℕ) (s : Socket) → 1 ≤ n → (stream s ≡ []) ⊎ Received n s
unfolding stream recv_some
recv_some-stream n (segment b bs ∷ s) h = inr (
  take n (b ∷ bs),
  put_back (drop n (b ∷ bs)) s,
  refl,
  ap (λ u. take n (b ∷ bs) ++ u) (stream-put_back (drop n (b ∷ bs)) s)
      ∙ sym (append_assoc (take n (b ∷ bs)) (drop n (b ∷ bs)) (stream s))
      ∙ ap (λ u. u ++ stream s) (take-append-drop n (b ∷ bs)),
  omega (arith, length-take n (b ∷ bs)),
  omega (arith, length-take n (b ∷ bs)),
)
recv_some-stream n [] h = inl refl
recv_some-stream n (interrupted ∷ s) h = inl refl
recv_some-stream n (failed ∷ s) h = inl refl

pub recv_some-end : (n : ℕ) (s : Socket) → stream s ≡ [] → recv_some n s ≡ none
unfolding stream recv_some
recv_some-end n [] h = refl
recv_some-end n (interrupted ∷ s) h = refl
recv_some-end n (failed ∷ s) h = refl
recv_some-end n (segment b bs ∷ s) h = cc

-- What the first loop leaves: the head with all that came behind it, and the rest of the stream.
abbrev pub HeadRead : ℕ → Bytes → Socket → ℕ → Type 0
HeadRead fuel raw s i =
    (raw' : Bytes) × (s' : Socket) × (read_head fuel raw s ≡ some (raw', s'))
    × (raw' ++ stream s' ≡ raw ++ stream s)
    × (find blank_line raw' ≡ some i)

pub read_head-done :
    (fuel : ℕ) (raw : Bytes) (s : Socket) (j : ℕ)
    → find blank_line raw ≡ some j
    → read_head (suc fuel) raw s ≡ some (raw, s)
unfolding read_head
read_head-done fuel raw s j e = ground (arith, e)

pub read_head-more :
    (fuel : ℕ) (raw got : Bytes) (s s' : Socket)
    → find blank_line raw ≡ none
    → recv_some buffer_size s ≡ some (got, s')
    → length (raw ++ got) ≤ max_head
    → read_head (suc fuel) raw s ≡ read_head fuel (raw ++ got) s'
unfolding read_head
read_head-more fuel raw got s s' e r h = ground (arith, e, r)

-- Without the blank line, no more is read than what ends with it.
pub unfinished :
    (raw ys : Bytes) (i : ℕ)
    → find blank_line raw ≡ none
    → find blank_line (raw ++ ys) ≡ some i
    → length raw ≤ i + 4
unfinished raw ys i e h = elim (Bool-cases (leb (i + 4) (length raw))) [
  | inl long ↦
      let k : i + 4 ≤ length raw = leb→le (i + 4) (length raw) long in
      ground (arith, find-within blank_line raw ys i h k, e)
  | inr short ↦ ground (arith, short)
]

pub no_stream :
    (raw : Bytes) (s : Socket) (i : ℕ)
    → find blank_line raw ≡ none
    → find blank_line (raw ++ stream s) ≡ some i
    → stream s ≢ []
no_stream raw s i e h end =
    let h' = ap (λ ys. find blank_line (raw ++ ys)) (sym end) ∙ h in
    let h'' = ap (find blank_line) (sym (append-nil raw)) ∙ h' in ground (arith, h'', e)

pub read_head-stream :
    (fuel : ℕ) (raw : Bytes) (s : Socket) (i : ℕ)
    → find blank_line (raw ++ stream s) ≡ some i
    → i + 4 + buffer_size ≤ max_head
    → length raw ≤ i + 4 + buffer_size
    → max_head + 1 ≤ fuel + length raw
    → HeadRead fuel raw s i
read_head-stream zero raw s i h k l f = absurd (omega arith)
read_head-stream (suc fuel) raw s i h k l f = elim (Option-cases (find blank_line raw)) [
  | inr (j, e) ↦ (
    raw,
    s,
    read_head-done fuel raw s j e,
    refl,
    e ∙ sym (find-append blank_line raw (stream s) j e) ∙ h,
  )
  | inl e ↦ elim (recv_some-stream buffer_size s (omega arith)) [
    | inl end ↦ absurd (no_stream raw s i e h end)
    | inr (got, s', r, same, some_bytes, few) ↦
        let whole : (raw ++ got) ++ stream s' ≡ raw ++ stream s =
          append_assoc raw got (stream s') ∙ ap (λ u. raw ++ u) same in
        let short = unfinished raw (stream s) i e h in
        let size = length-append raw got in
        let (raw', s'', r', same', e') =
          read_head-stream fuel (raw ++ got) s' i (ap (find blank_line) whole ∙ h) k (omega arith)
            (omega arith) in
        (raw', s'', read_head-more fuel raw got s s' e r (omega arith) ∙ r', same' ∙ whole, e')
  ]
]

pub read_rest-step :
    (fuel left : ℕ) (s s' : Socket) (got : Bytes)
    → recv_some (min buffer_size (suc left)) s ≡ some (got, s')
    → read_rest (suc fuel) (suc left) s
      ≡ (do rest ← read_rest fuel (suc left - length got) s'; some (got ++ rest))
unfolding read_rest
read_rest-step fuel left s s' got r = rw r refl

pub read_rest-end :
    (fuel left : ℕ) (s : Socket) → stream s ≡ [] → read_rest (suc fuel) (suc left) s ≡ none
unfolding read_rest
read_rest-end fuel left s end = rw (recv_some-end (min buffer_size (suc left)) s end) refl

-- The next bytes of a stream, where it has as many.
abbrev pub first_bytes : ℕ → Bytes → Option Bytes
first_bytes n bs = if leb n (length bs) then some (take n bs) else none

pub first_bytes-nil : (n : ℕ) → first_bytes (suc n) [] ≡ none
first_bytes-nil n = ground arith

pub first_bytes-zero : (bs : Bytes) → first_bytes 0 bs ≡ some []
first_bytes-zero bs = ground arith

pub read_rest-nothing : (fuel : ℕ) (s : Socket) → read_rest fuel 0 s ≡ some []
unfolding read_rest
read_rest-nothing zero s = refl
read_rest-nothing (suc fuel) s = refl

pub first_bytes-append :
    (n : ℕ) (got bs : Bytes)
    → length got ≤ n
    → (do rest ← first_bytes (n - length got) bs; some (got ++ rest)) ≡ first_bytes n (got ++ bs)
first_bytes-append n got bs h = ground (arith, length-append got bs, take_beyond n got bs h)

pub read_rest-stream :
    (fuel left : ℕ) (s : Socket) → left ≤ fuel → read_rest fuel left s ≡ first_bytes left (stream s)
read_rest-stream fuel zero s h = read_rest-nothing fuel s ∙ sym (first_bytes-zero (stream s))
read_rest-stream zero (suc left) s h = absurd (omega arith)
read_rest-stream (suc fuel) (suc left) s h =
    elim (recv_some-stream (min buffer_size (suc left)) s (omega arith)) [
      | inl end ↦
          read_rest-end fuel left s end
          ∙ sym (ap (first_bytes (suc left)) end ∙ first_bytes-nil left)
      | inr (got, s', r, same, some_bytes, few) ↦
          read_rest-step fuel left s s' got r
          ∙ ap (λ o. do rest ← o; some (got ++ rest))
              (read_rest-stream fuel (suc left - length got) s' (omega arith))
          ∙ first_bytes-append (suc left) got (stream s') (omega arith)
          ∙ ap (first_bytes (suc left)) same
    ]
