-- ===== src/Http/Request/Acceptance.antt =====
-- Which requests are parked for their handlers, and with what body.
use crosspoint_simulator.Prelude.{
  true, false, none, some, true, false, none, some, ℕ, ◌++◌, ◌≤◌, Bool, true, false, Option, none,
  some, length, take, any, ltb, leb, if◌then◌else◌, Bytes, if-cases, ◌≡◌, refl, ap, subst, arith,
  ltb-ge, ◌∙◌, sym,
}
use crosspoint_simulator.WebSocket.Socket.{Socket, contents}
use crosspoint_simulator.Http.Body.{read_body}
use crosspoint_simulator.Http.Body.Streaming.{read_body-Streamed}
use crosspoint_simulator.Http.Request.{
  Head, Parked, Served, Outcome, answered, parked, parse_head, is_chunked, body_length, path_of,
  is_nul, max_body_size, root_if_empty, take_body, serve_framed, serve_request,
}

-- A request that can be parked, with a body of `n` bytes.
abbrev pub Acceptable : Bytes → Bytes → Socket → ℕ → Type 0
Acceptable text early s n =
    let head = parse_head text in
    (is_chunked head.headers ≡ false)
    × (body_length head.headers ≡ some n)
    × (any is_nul (path_of head.target) ≡ false)
    × (n ≤ max_body_size)
    × (n ≤ length (early ++ contents s))

abbrev pub IsParked : Served → Type 0
IsParked served = (p : Parked) × (served.outcome ≡ parked p)

-- What is parked has the length `n`, and its body the first `n` bytes of the stream unless a raw
-- handler has had them.
abbrev pub ParkedWith : Bool → Bytes → Bytes → Socket → Parked → Type 0
ParkedWith raw_handlers text early s p =
    Acceptable text early s p.content_length
    × (p.uri ≡ root_if_empty (path_of (parse_head text).target))
    × (p.body ≡ (if raw_handlers then none else some (take p.content_length (early ++ contents s))))

complete-leb :
    (raw_handlers : Bool) (n : ℕ) (early : Bytes) (s : Socket)
    → (read_body raw_handlers n early s).complete ≡ leb n (length (early ++ contents s))
complete-leb true n early s = (read_body-Streamed n early s).1
complete-leb false n early s = (read_body-Streamed n early s).3

take_body-IsParked :
    (raw_handlers : Bool) (head : Head) (path : Bytes) (n : ℕ) (early : Bytes) (s : Socket)
    → n ≤ length (early ++ contents s)
    → IsParked (take_body raw_handlers head path n early s)
unfolding take_body
take_body-IsParked raw_handlers head path n early s h =
    if-cases IsParked (read_body raw_handlers n early s).complete (λ k. (_, refl))
      (λ k. absurd (ground (arith, complete-leb raw_handlers n early s)))

serve_framed-IsParked :
    (can_raw : Bytes → Bool) (head : Head) (n : ℕ) (early : Bytes) (s : Socket)
    → any is_nul (path_of head.target) ≡ false
    → n ≤ max_body_size
    → n ≤ length (early ++ contents s)
    → IsParked (serve_framed can_raw head (some n) early s)
unfolding serve_framed
serve_framed-IsParked can_raw head n early s h k l =
    if-cases IsParked (any is_nul (path_of head.target)) (λ m. absurd (ground arith))
      (λ m.
        if-cases IsParked (ltb max_body_size n) (λ o. absurd (ground arith))
          (λ o. take_body-IsParked _ head (path_of head.target) n early s l))

request_of : Parked → Outcome → Parked
request_of p (answered status message) = p
request_of p (parked q) = q

-- What `take_body` parks.
abbrev Kept : Bool → Bytes → ℕ → Bytes → Socket → Parked → Type 0
Kept raw_handlers path n early s p =
    (n ≤ length (early ++ contents s))
    × (p.content_length ≡ n)
    × (p.uri ≡ root_if_empty path)
    × (p.body ≡ (if raw_handlers then none else some (take n (early ++ contents s))))

abbrev Parks : (Parked → Type 0) → Served → Type 0
Parks K served = (p : Parked) → served.outcome ≡ parked p → K p

body-take :
    (raw_handlers : Bool) (n : ℕ) (early : Bytes) (s : Socket)
    → (if raw_handlers then none else some (read_body raw_handlers n early s).body)
      ≡ (if raw_handlers then none else some (take n (early ++ contents s)))
body-take true n early s = refl
body-take false n early s = ap some (read_body-Streamed n early s).2

take_body-Kept :
    (raw_handlers : Bool) (head : Head) (path : Bytes) (n : ℕ) (early : Bytes) (s : Socket)
    → Parks (Kept raw_handlers path n early s) (take_body raw_handlers head path n early s)
unfolding take_body request_of
take_body-Kept raw_handlers head path n early s =
    if-cases (Parks (Kept raw_handlers path n early s)) (read_body raw_handlers n early s).complete
      (λ k p e. subst (Kept raw_handlers path n early s) (ap (request_of p) e) (
        ground (arith, complete-leb raw_handlers n early s),
        refl,
        refl,
        body-take raw_handlers n early s,
      ))
      (λ k p e. cc)

abbrev Framed : (Bytes → Bool) → Head → Option ℕ → Bytes → Socket → Parked → Type 0
Framed can_raw head length_read early s p =
    let path = path_of head.target in
    (n : ℕ) × (length_read ≡ some n)
    × (any is_nul path ≡ false)
    × (n ≤ max_body_size)
    × Kept (can_raw (root_if_empty path)) path n early s p

serve_framed-Framed :
    (can_raw : Bytes → Bool) (head : Head) (length_read : Option ℕ) (early : Bytes) (s : Socket)
    → Parks
        (Framed can_raw head length_read early s)
        (serve_framed can_raw head length_read early s)
unfolding serve_framed
serve_framed-Framed can_raw head none early s = λ p e. cc
serve_framed-Framed can_raw head (some n) early s =
    let path = path_of head.target in
    if-cases (Parks (Framed can_raw head (some n) early s)) (any is_nul path) (λ m p e. cc)
      (λ m.
        if-cases (Parks (Framed can_raw head (some n) early s)) (ltb max_body_size n) (λ o p e. cc)
          (λ o p e. (
            n,
            refl,
            m,
            ltb-ge _ _ o,
            take_body-Kept (can_raw (root_if_empty path)) head path n early s p e,
          )))

-- What is parked of a request.
abbrev pub ParkedFrom : (Bytes → Bool) → Bytes → Bytes → Socket → Parked → Type 0
ParkedFrom can_raw text early s p =
    let path = path_of (parse_head text).target in
    Acceptable text early s p.content_length
    × (p.uri ≡ root_if_empty path)
    × (p.body ≡ (
        if can_raw (root_if_empty path)
        then none
        else some (take p.content_length (early ++ contents s))))

Framed-ParkedFrom :
    (can_raw : Bytes → Bool) (text early : Bytes) (s : Socket) (p : Parked)
    → is_chunked (parse_head text).headers ≡ false
    → Framed can_raw (parse_head text) (body_length (parse_head text).headers) early s p
    → ParkedFrom can_raw text early s p
Framed-ParkedFrom can_raw text early s p c (n, a, m, l, (k, e, u, b)) =
    let stream = early ++ contents s in
    let raw = can_raw (root_if_empty (path_of (parse_head text).target)) in
    (
      (c, a ∙ ap some (sym e), m, omega (arith, e), omega (arith, e)),
      u,
      b ∙ ap (λ (i : ℕ). if raw then none else some (take i stream)) (sym e),
    )

-- A request is parked only if it is not chunked, its Content-Length is absent or a decimal number of
-- at most 256 MB, its path has no NUL byte and the whole body arrives. Then its URI is the decoded
-- path, or `/` for an empty one, and its body is the first bytes of the stream, as many as the
-- length says; where a raw handler takes the body it is not kept.
pub serve_request-parked :
    (can_raw : Bytes → Bool) (text early : Bytes) (s : Socket) (p : Parked)
    → (serve_request can_raw text early s).outcome ≡ parked p
    → ParkedFrom can_raw text early s p
unfolding serve_request
serve_request-parked can_raw text early s =
    let head = parse_head text in
    if-cases (Parks (ParkedFrom can_raw text early s)) (is_chunked head.headers) (λ m p e. cc)
      (λ m p e.
        Framed-ParkedFrom can_raw text early s p m
          (serve_framed-Framed can_raw head (body_length head.headers) early s p e))

accepts-IsParked :
    (can_raw : Bytes → Bool) (text early : Bytes) (s : Socket) (n : ℕ)
    → Acceptable text early s n
    → IsParked (serve_request can_raw text early s)
unfolding serve_request
accepts-IsParked can_raw text early s n (c, l, m, k, h) =
    let head = parse_head text in
    if-cases IsParked (is_chunked head.headers) (λ o. absurd (ground arith))
      (λ o.
        subst (λ i. IsParked (serve_framed can_raw head i early s)) (sym l)
          (serve_framed-IsParked can_raw head n early s m k h))

number_of : Option ℕ → ℕ
number_of none = 0
number_of (some n) = n

-- And every such request is parked, however its body is cut.
pub serve_request-accepts :
    (can_raw : Bytes → Bool) (text early : Bytes) (s : Socket) (n : ℕ)
    → Acceptable text early s n
    → (p : Parked) × ((serve_request can_raw text early s).outcome ≡ parked p)
      × (p.content_length ≡ n)
unfolding number_of
serve_request-accepts can_raw text early s n h =
    let q = accepts-IsParked can_raw text early s n h in
    let back = serve_request-parked can_raw text early s q.0 q.1 in
    (q.0, q.1, ap number_of (sym back.0.1 ∙ h.1))
