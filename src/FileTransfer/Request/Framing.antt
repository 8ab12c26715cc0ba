-- ===== src/FileTransfer/Request/Framing.antt =====
-- Which request `parseRequest` of src/CrossPointWebServer.cpp takes from a stream of bytes, however
-- the network cuts it.
use crosspoint_simulator.Prelude.{
  ℕ, zero, suc, ◌+◌, ◌-◌, ◌≤◌, ◌≡◌, ◌∙◌, refl, ap, ap₂, sym, [], ◌∷◌, ◌++◌, length-append, Option,
  none, some, ltb, leb, arith, if◌then◌else◌, length, take, drop, Bytes, ◌>>=◌, find, find-length,
  Bool-cases, Option-cases, inl, inr, leb→le,
}
use crosspoint_simulator.WebSocket.Socket.{Socket}
use crosspoint_simulator.WebSocket.Socket.Reads.{take_past, take_beyond, drop_past}
use crosspoint_simulator.WebSocket.Handshake.{blank_line}
use crosspoint_simulator.FileTransfer.Request.{
  Request, max_body_size, max_head, buffer_size, request_of, content_length, take_body,
  parse_request, request_at, behind_head,
}
use crosspoint_simulator.FileTransfer.Request.Reads.{
  stream, read_head-stream, first_bytes, read_rest-stream,
}

-- The request whose headers these are and whose body is the first bytes of the rest of the stream.
abbrev pub framed_body : Request → Bytes → Option Request
framed_body req rest =
    let n = content_length req.headers in
    if ltb max_body_size n
    then none
    else do body ← first_bytes n rest; some (record req { body = body })

abbrev pub framed : Bytes → Bytes → Option Request
framed head rest = do req ← request_of head; framed_body req rest

take-take : (n : ℕ) (bs : Bytes) → take n (take n bs) ≡ take n bs
take-take zero bs = refl
take-take (suc n) [] = refl
take-take (suc n) (b ∷ bs) = ap (◌∷◌ b) (take-take n bs)

body-early :
    (n : ℕ) (early bs : Bytes)
    → (do rest ← first_bytes (n - length early) bs; some (take n (early ++ rest)))
      ≡ first_bytes n (early ++ bs)
body-early n early bs =
    let k = n - length early in
    let size = length-append early bs in
    elim (Bool-cases (leb n (length early))) [
      | inl all ↦
          let h : n ≤ length early = leb→le n (length early) all in
          ground (arith, size, take_past n early (take k bs) h, take_past n early bs h)
      | inr more ↦
          let h : length early ≤ n = ground (arith, more) in
          ground (
            arith,
            size,
            take_beyond n early (take k bs) h,
            take_beyond n early bs h,
            take-take k bs,
          )
    ]

abbrev with_body : Request → Option Bytes → Option Request
with_body req none = none
with_body req (some body) = some (record req { body = body })

with_body-bind :
    (req : Request) (f : Bytes → Bytes) (o : Option Bytes)
    → (do rest ← o; some (record req { body = f rest }))
      ≡ with_body req (do rest ← o; some (f rest))
with_body-bind req f none = refl
with_body-bind req f (some rest) = refl

with_body-do :
    (req : Request) (o : Option Bytes)
    → with_body req o ≡ (do body ← o; some (record req { body = body }))
with_body-do req none = refl
with_body-do req (some body) = refl

take_body-framed :
    (req : Request) (early : Bytes) (s : Socket)
    → take_body req (content_length req.headers) early s ≡ framed_body req (early ++ stream s)
unfolding take_body
take_body-framed req early s =
    let n = content_length req.headers in
    let k = n - length early in
    ap (λ (o : Option Request). if ltb max_body_size n then none else o)
      (ap (λ o. do rest ← o; some (record req { body = take n (early ++ rest) }))
          (read_rest-stream k k s (omega arith))
        ∙ with_body-bind req (λ rest. take n (early ++ rest)) (first_bytes k (stream s))
        ∙ ap (with_body req) (body-early n early (stream s))
        ∙ with_body-do req (first_bytes n (early ++ stream s)))

request_at-framed :
    (raw : Bytes) (s : Socket) (i : ℕ)
    → request_at raw s i ≡ framed (take i raw) (drop (i + 4) raw ++ stream s)
unfolding request_at
request_at-framed raw s i = elim (Option-cases (request_of (take i raw))) [
  | inl e ↦ rw e refl
  | inr (req, e) ↦ rw e (take_body-framed req (drop (i + 4) raw) s)
]

-- A request whose head ends before the last 8196 bytes of the first MB of the stream is read the
-- same way however the network cuts the stream: its head is what is in front of the first blank line
-- and its body the bytes behind it, as many as its Content-Length says; there is no request where
-- the head has no method or no target, the length is above 256 MB, or the stream ends before the
-- body does.
pub parse_request-stream :
    (s : Socket) (i : ℕ)
    → find blank_line (stream s) ≡ some i
    → i + 4 + buffer_size ≤ max_head
    → parse_request s ≡ framed (take i (stream s)) (drop (i + 4) (stream s))
unfolding parse_request
parse_request-stream s i h k =
    let (raw, s', r, same, e) =
      read_head-stream (max_head + 2) [] s i h k (omega arith) (omega arith) in
    let ends = find-length blank_line raw i e in
    ap (λ o. o >>= behind_head) r
    ∙ ap (λ o. o >>= request_at raw s') e
    ∙ request_at-framed raw s' i
    ∙ ap₂ framed (sym (take_past i raw (stream s') (omega arith)) ∙ ap (take i) same)
        (sym (drop_past (i + 4) raw (stream s') ends) ∙ ap (drop (i + 4)) same)
