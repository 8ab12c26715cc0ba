-- ===== src/Http/Body/Streaming.antt =====
-- The body of a request, however the network cuts it.
use crosspoint_simulator.Prelude.{
  ℕ, zero, suc, ◌-◌, ◌≤◌, Bool, true, false, List, [], ◌∷◌, ◌++◌, flatten, map, length, take, drop,
  leb, Bytes, All, All-append, map-append, ◌≡◌, ◌==◌, arith, ◌∙◌, length-take, ap, refl, ap₂,
  length-drop, length-append, sym, append_assoc, take-append-drop,
}
use crosspoint_simulator.WebSocket.Socket.{segment, interrupted, failed, Socket, contents}
use crosspoint_simulator.Http.Body.{
  RawEvent, raw_start, raw_write, chunks, writes, receive, read_body, ending,
}

take_split : (n : ℕ) (xs ys : Bytes) → take n (xs ++ ys) ≡ take n xs ++ take (n - length xs) ys
take_split zero xs ys = ap (λ k. take k ys) {x = 0} {y = 0 - length xs} (omega arith)
take_split (suc n) [] ys = ap (λ k. take k ys) {x = suc n} {y = suc n - 0} (omega arith)
take_split (suc n) (x ∷ xs) ys =
    ap (◌∷◌ x) (take_split n xs ys)
    ∙ ap (λ k. x ∷ take n xs ++ take k ys) {x = n - length xs} {y = suc n - suc (length xs)}
        (omega arith)

-- A piece that is handed over: at least a byte, at most 4096.
abbrev pub Chunk : Bytes → Type 0
Chunk w = (1 ≤ length w) × (length w ≤ 4096)

take-Chunk : (b : ℕ) (bs : Bytes) → Chunk (take 4096 (b ∷ bs))
take-Chunk b bs = omega (arith, length-take 4096 (b ∷ bs))

pub chunks-Chunk : (fuel : ℕ) (buf : Bytes) → All Chunk (chunks fuel buf)
unfolding chunks
chunks-Chunk zero buf = tt
chunks-Chunk (suc fuel) [] = tt
chunks-Chunk (suc fuel) (b ∷ buf) = (take-Chunk b buf, chunks-Chunk fuel (drop 4096 (b ∷ buf)))

pub flatten-chunks : (fuel : ℕ) (buf : Bytes) → length buf ≤ fuel → flatten (chunks fuel buf) ≡ buf
unfolding chunks flatten
flatten-chunks zero [] h = refl
flatten-chunks zero (b ∷ buf) h = absurd (omega arith)
flatten-chunks (suc fuel) [] h = refl
flatten-chunks (suc fuel) (b ∷ buf) h =
    ap (◌++◌ (take 4096 (b ∷ buf)))
      (flatten-chunks fuel (drop 4096 (b ∷ buf)) (omega (arith, length-drop 4096 (b ∷ buf))))
    ∙ take-append-drop 4096 (b ∷ buf)

receive-contents :
    (left : ℕ) (s : Socket)
    → (flatten (receive left s).0 ≡ take left (contents s))
      × ((receive left s).1 ≡ left - length (contents s))
unfolding receive contents flatten
receive-contents zero s = (refl, omega arith)
receive-contents (suc left) [] = (refl, omega arith)
receive-contents (suc left) (failed ∷ s) = (refl, omega arith)
receive-contents (suc left) (interrupted ∷ s) = receive-contents (suc left) s
receive-contents (suc left) (segment b bs ∷ s) =
    let n = suc left - length (b ∷ bs) in
    let rest = receive-contents n s in
    (
      ap (◌++◌ (take (suc left) (b ∷ bs))) rest.0
          ∙ sym (take_split (suc left) (b ∷ bs) (contents s)),
      omega (arith, rest.1, length-append (b ∷ bs) (contents s)),
    )

pieces : List Bytes → List Bytes
pieces [] = []
pieces (p ∷ ps) = chunks (length p) p ++ pieces ps

writes-pieces : (ps : List Bytes) → flatten (map writes ps) ≡ map raw_write (pieces ps)
unfolding writes pieces flatten
writes-pieces [] = refl
writes-pieces (p ∷ ps) =
    ap (◌++◌ (map raw_write (chunks (length p) p))) (writes-pieces ps)
    ∙ sym (map-append raw_write (chunks (length p) p) (pieces ps))

pieces-Chunk : (ps : List Bytes) → All Chunk (pieces ps)
unfolding pieces
pieces-Chunk [] = tt
pieces-Chunk (p ∷ ps) =
    All-append Chunk (chunks (length p) p) (pieces ps) (chunks-Chunk (length p) p) (pieces-Chunk ps)

flatten-both : (xs ys : List Bytes) → flatten (xs ++ ys) ≡ flatten xs ++ flatten ys
unfolding flatten
flatten-both [] ys = refl
flatten-both (x ∷ xs) ys =
    ap (◌++◌ x) (flatten-both xs ys) ∙ sym (append_assoc x (flatten xs) (flatten ys))

flatten-pieces : (ps : List Bytes) → flatten (pieces ps) ≡ flatten ps
unfolding pieces flatten
flatten-pieces [] = refl
flatten-pieces (p ∷ ps) =
    flatten-both (chunks (length p) p) (pieces ps)
    ∙ ap₂ (◌++◌) (flatten-chunks (length p) p (omega arith)) (flatten-pieces ps)

events-pieces :
    (first : Bytes) (got : List Bytes) (c d : Bool)
    → c ≡ d
    → writes first ++ (flatten (map writes got) ++ ending c ∷ [])
      ≡ map raw_write (chunks (length first) first ++ pieces got) ++ ending d ∷ []
unfolding writes
events-pieces first got c d e =
    let firsts = map raw_write (chunks (length first) first) in
    rw (e, writes-pieces got, map-append raw_write (chunks (length first) first) (pieces got))
      (sym (append_assoc firsts (map raw_write (pieces got)) (ending d ∷ [])))

-- What a raw handler sees of a body of `n` bytes, of which the stream has `stream`.
abbrev pub Streamed : ℕ → Bytes → List RawEvent → Type 0
Streamed n stream events =
    (ws : List Bytes) × (events
      ≡ raw_start ∷ map raw_write ws ++ ending (leb n (length stream)) ∷ [])
    × All Chunk ws
    × (flatten ws ≡ take n stream)

read_complete :
    (n : ℕ) (early : Bytes) (s : Socket)
    → ((receive (n - length (take n early)) s).1 == 0) ≡ leb n (length (early ++ contents s))
read_complete n early s = ground (
  arith,
  (receive-contents (n - length (take n early)) s).1,
  length-take n early,
  length-append early (contents s),
)

read-bytes :
    (n : ℕ) (early : Bytes) (s : Socket)
    → take n early ++ flatten (receive (n - length (take n early)) s).0
      ≡ take n (early ++ contents s)
read-bytes n early s =
    ap (◌++◌ (take n early)) (
      (receive-contents (n - length (take n early)) s).0
      ∙ ap (λ k. take k (contents s)) {x = n - length (take n early)} {y = n - length early}
          (omega (arith, length-take n early)))
    ∙ sym (take_split n early (contents s))

-- However the body is cut between the headers' last `recv` and the later ones, and whatever signals
-- interrupt them: a raw handler gets a start, the first `n` bytes of the stream in order in writes
-- of 1 to 4096 bytes, and an end if the stream had `n` bytes or an abort if not; without one the
-- same bytes are kept as the body and no event is sent. `n` is the request's length.
pub read_body-Streamed :
    (n : ℕ) (early : Bytes) (s : Socket)
    → let stream = early ++ contents s in
      let raw = read_body true n early s in
      let kept = read_body false n early s in
      Streamed n stream raw.events
      × (raw.complete ≡ leb n (length stream))
      × (kept.body ≡ take n stream)
      × (kept.complete ≡ leb n (length stream))
      × (kept.events ≡ [])
unfolding read_body
read_body-Streamed n early s =
    let first = take n early in
    let got = (receive (n - length first) s).0 in
    let c = read_complete n early s in
    (
      (
        chunks (length first) first ++ pieces got,
        ap (◌∷◌ raw_start) (events-pieces first got _ _ c),
        All-append Chunk (chunks (length first) first) (pieces got)
            (chunks-Chunk (length first) first) (pieces-Chunk got),
        flatten-both (chunks (length first) first) (pieces got)
            ∙ ap₂ (◌++◌) (flatten-chunks (length first) first (omega arith)) (flatten-pieces got)
            ∙ read-bytes n early s,
      ),
      c,
      read-bytes n early s,
      c,
      refl,
    )
