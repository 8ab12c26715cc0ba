-- ===== src/FileTransfer/Request/Normal.antt =====
-- The path of a request that `parseRequest` of src/CrossPointWebServer.cpp returns.
use crosspoint_simulator.Prelude.{
  ℕ, ◌-◌, ◌≡◌, ◌++◌, Option, none, some, ltb, length, take, Bytes, ◌>>=◌, if-cases, ◌||◌, ◌+◌, ◌∷◌,
  refl,
}
use crosspoint_simulator.WebSocket.Socket.{Socket}
use crosspoint_simulator.FileTransfer.Path.{normalize_path}
use crosspoint_simulator.FileTransfer.Request.{
  Request, max_body_size, read_rest, take_body, parse_request, request_of, request_at, parse_head,
  read_head, is_empty, max_head, path_before, [], find, behind_head, blank_line, content_length,
  drop,
}

-- A request whose path is normalised.
abbrev pub IsNormal : Request → Type 0
IsNormal req = (asked : Bytes) × (req.path ≡ normalize_path asked)

abbrev pub Normal : Option Request → Type 0
Normal none = Unit
Normal (some req) = IsNormal req

take_body-Normal :
    (req : Request) (n : ℕ) (early : Bytes) (s : Socket)
    → IsNormal req
    → Normal (take_body req n early s)
unfolding take_body
take_body-Normal req n early s h =
    if-cases Normal (ltb max_body_size n) (λ _. tt)
      λ _. with_rest (read_rest (n - length early) (n - length early) s)
  where
    with_rest :
        (o : Option Bytes)
        → Normal (do rest ← o; some (record req { body = take n (early ++ rest) }))
    with_rest none = tt
    with_rest (some rest) = h

request_of-Normal : (text : Bytes) → Normal (request_of text)
unfolding request_of
request_of-Normal text =
    let head = parse_head text in
    if-cases Normal (is_empty head.method_text || is_empty head.target) (λ _. tt)
      (λ _. (path_before head.target (find (b'?' ∷ []) head.target), refl))

bind-Normal :
    {A : Type 0} (o : Option A) (k : A → Option Request)
    → ((a : A) → Normal (k a))
    → Normal (o >>= k)
bind-Normal none k h = tt
bind-Normal (some a) k h = h a

after-Normal :
    (o : Option Request) (k : Request → Option Request)
    → Normal o
    → ((req : Request) → IsNormal req → Normal (k req))
    → Normal (o >>= k)
after-Normal none k h f = tt
after-Normal (some req) k h f = f req h

pub parse_request-Normal : (s : Socket) → Normal (parse_request s)
unfolding parse_request request_at
parse_request-Normal s = bind-Normal (read_head (max_head + 2) [] s) behind_head λ r.
    bind-Normal (find blank_line r.0) (request_at r.0 r.1) λ i.
      after-Normal (request_of (take i r.0)) _ (request_of-Normal (take i r.0))
        λ req h. take_body-Normal req (content_length req.headers) (drop (i + 4) r.0) r.1 h
