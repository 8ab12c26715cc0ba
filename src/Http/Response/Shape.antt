-- ===== src/Http/Response/Shape.antt =====
-- What the client is sent, whatever the handlers call.
use crosspoint_simulator.Prelude.{
  ℕ, Bool, List, [], ◌∷◌, ◌++◌, Bytes, if◌then◌else◌, codes, Option, some, none, ◌≡◌, ◌&&◌,
  if-cases, ap, arith, sym, append-nil, ◌∙◌, append_assoc, refl,
}
use crosspoint_simulator.Http.Response.{
  send_body, Response, header_text, c_string, send_p, send, send_content_p, send_content,
  send_header, set_content_length, length, true, not, send_all, emit_headers, false, ltb, fresh,
}

pub data Reply : Type 0 where
  sends : ℕ → Bytes → Bytes → Reply
  sends_p : ℕ → Bytes → Bytes → Reply
  sends_content : Bytes → Reply
  sends_content_p : Bytes → Reply
  header : Bytes → Bytes → Bool → Reply
  content_length : ℕ → Reply

unfoldable pub reply : Response → Reply → Response
unfolding send send_content send_header set_content_length
reply r (sends code content_type content) = send r code content_type content
reply r (sends_p code content_type content) = send_p r code content_type content
reply r (sends_content content) = send_content r content
reply r (sends_content_p content) = send_content_p r content
reply r (header name val first) = send_header r name val first
reply r (content_length len) = set_content_length r len

unfoldable pub replies : Response → List Reply → Response
unfolding reply
replies r [] = r
replies r (x ∷ xs) = replies (reply r x) xs

-- The status, the type and the content that a reply sends, if it sends.
abbrev pub sending : Reply → Option (ℕ × Bytes × Bytes)
sending (sends code content_type content) = some (code, content_type, c_string content)
sending (sends_p code content_type content) = some (code, content_type, content)
sending (sends_content content) = some (200, codes "text/plain", c_string content)
sending (sends_content_p content) = some (200, codes "text/plain", content)
sending _ = none

abbrev pub content_if : Option (ℕ × Bytes × Bytes) → Bytes
content_if none = []
content_if (some (code, content_type, content)) = content

abbrev pub contents_of : List Reply → Bytes
contents_of [] = []
contents_of (x ∷ xs) = content_if (sending x) ++ contents_of xs

abbrev pub body_of : Bool → List Reply → Bytes
body_of head_only xs = if head_only then [] else contents_of xs

-- What these replies send on a response that has not sent its headers yet: nothing as long as none
-- of them sends, and from the first that does one block of headers with all the content.
abbrev pub expected : Response → List Reply → Bytes
expected r [] = []
expected r (x ∷ xs) = elim (sending x) [
  | none ↦ expected (reply r x) xs
  | some (code, content_type, content) ↦
      header_text r code content_type (length content) ++ body_of r.head_only (x ∷ xs)
]

-- A response on a live connection whose headers are out, or not out yet.
abbrev opened : Response → Response
opened r = record r { connected = true; headers_sent = true }

abbrev unsent : Response → Response
unsent r = record r { connected = true; headers_sent = false; sent = [] }

abbrev body_bytes : Bool → Bytes → Bytes
body_bytes head_only content = if head_only then [] else content

bytes_out : (h : Bool) (c : Bytes) → (not h && ltb 0 (length c)) ≡ true → body_bytes h c ≡ c
bytes_out h c k = ground arith

bytes_in : (h : Bool) (c : Bytes) → (not h && ltb 0 (length c)) ≡ false → body_bytes h c ≡ []
bytes_in h [] k = ground arith
bytes_in h (b ∷ c) k = ground arith

send_body-opened :
    (r : Response) (c : Bytes)
    → send_body (opened r) c ≡ opened (record r { sent = r.sent ++ body_bytes r.head_only c })
unfolding send_all
send_body-opened r c =
    let with_sent = λ (b : Bytes). opened (record r { sent = b }) in
    if-cases (λ x. x ≡ with_sent (r.sent ++ body_bytes r.head_only c))
      (not r.head_only && ltb 0 (length c))
      (λ k. ap (λ b. with_sent (r.sent ++ b)) (sym (bytes_out r.head_only c k)))
      (λ k.
        ap with_sent (sym (append-nil r.sent))
        ∙ ap (λ b. with_sent (r.sent ++ b)) (sym (bytes_in r.head_only c k)))

-- The other members after a reply.
abbrev noted : Response → Reply → Response
noted r (header name val first) = send_header r name val first
noted r (content_length len) = set_content_length r len
noted r _ = r

no_bytes : (h : Bool) → body_bytes h [] ≡ []
no_bytes true = refl
no_bytes false = refl

nothing_more :
    (r : Response) (x : Reply)
    → opened (record (noted r x) { sent = r.sent })
      ≡ opened (record (noted r x) { sent = r.sent ++ body_bytes r.head_only [] })
nothing_more r x =
    ap (λ (b : Bytes). opened (record (noted r x) { sent = b }))
      (sym (append-nil r.sent) ∙ ap (◌++◌ r.sent) (sym (no_bytes r.head_only)))

reply-opened :
    (r : Response) (x : Reply)
    → reply (opened r) x
      ≡ opened
          (record (noted r x) { sent = r.sent ++ body_bytes r.head_only (content_if (sending x)) })
unfolding reply set_content_length send_header send send_p send_content send_content_p emit_headers
reply-opened r (sends code content_type content) = send_body-opened r (c_string content)
reply-opened r (sends_p code content_type content) = send_body-opened r content
reply-opened r (sends_content content) = send_body-opened r (c_string content)
reply-opened r (sends_content_p content) = send_body-opened r content
reply-opened r (header name val true) = nothing_more r (header name val true)
reply-opened r (header name val false) = nothing_more r (header name val false)
reply-opened r (content_length len) = nothing_more r (content_length len)

noted_lem : (r : Response) (x : Reply) → (noted r x).head_only ≡ r.head_only
unfolding send_header set_content_length
noted_lem r (sends code content_type content) = refl
noted_lem r (sends_p code content_type content) = refl
noted_lem r (sends_content content) = refl
noted_lem r (sends_content_p content) = refl
noted_lem r (header name val true) = refl
noted_lem r (header name val false) = refl
noted_lem r (content_length len) = refl

body_of-cons :
    (before : Bytes) (h : Bool) (x : Reply) (xs : List Reply)
    → (before ++ body_bytes h (content_if (sending x))) ++ body_of h xs
      ≡ before ++ body_of h (x ∷ xs)
body_of-cons before true x xs = append_assoc before [] []
body_of-cons before false x xs = append_assoc before (content_if (sending x)) (contents_of xs)

replies-opened :
    (r : Response) (xs : List Reply)
    → (replies (opened r) xs).sent ≡ r.sent ++ body_of r.head_only xs
unfolding replies
replies-opened r [] = sym (append-nil r.sent) ∙ ap (◌++◌ r.sent) (sym (no_bytes r.head_only))
replies-opened r (x ∷ xs) =
    let out = r.sent ++ body_bytes r.head_only (content_if (sending x)) in
    ap (λ q. (replies q xs).sent) (reply-opened r x)
    ∙ replies-opened (record (noted r x) { sent = out }) xs
    ∙ ap (λ h. out ++ body_of h xs) (noted_lem r x)
    ∙ body_of-cons r.sent r.head_only x xs

-- The reply that sends first.
first_reply :
    (r : Response) (h : Bytes) (x : Reply) (xs : List Reply)
    → (replies (send_body (opened (record r { sent = h })) (content_if (sending x))) xs).sent
      ≡ h ++ body_of r.head_only (x ∷ xs)
first_reply r h x xs =
    let out = h ++ body_bytes r.head_only (content_if (sending x)) in
    ap (λ q. (replies q xs).sent)
      (send_body-opened (record r { sent = h }) (content_if (sending x)))
    ∙ replies-opened (record r { sent = out }) xs
    ∙ body_of-cons h r.head_only x xs

replies-unsent :
    (r : Response) (xs : List Reply) → (replies (unsent r) xs).sent ≡ expected (unsent r) xs
unfolding replies reply set_content_length send_header send send_p send_content send_content_p
    emit_headers
replies-unsent r [] = refl
replies-unsent r (sends code content_type content ∷ xs) =
    first_reply r (header_text (unsent r) code content_type (length (c_string content)))
      (sends code content_type content) xs
replies-unsent r (sends_p code content_type content ∷ xs) =
    first_reply r (header_text (unsent r) code content_type (length content))
      (sends_p code content_type content) xs
replies-unsent r (sends_content content ∷ xs) =
    first_reply r (header_text (unsent r) 200 (codes "text/plain") (length (c_string content)))
      (sends_content content) xs
replies-unsent r (sends_content_p content ∷ xs) =
    first_reply r (header_text (unsent r) 200 (codes "text/plain") (length content))
      (sends_content_p content) xs
replies-unsent r (header name val true ∷ xs) = replies-unsent (noted r (header name val true)) xs
replies-unsent r (header name val false ∷ xs) = replies-unsent (noted r (header name val false)) xs
replies-unsent r (content_length len ∷ xs) = replies-unsent (noted r (content_length len)) xs

-- Whatever the handlers call on a new response, in whatever order: as long as none of the calls
-- sends, the client gets nothing; from the first that does it gets one block of headers, made of
-- that call's status and type and of the length and headers set before it, and then the content of
-- all the sends in order, or no content at all for a HEAD request.
pub replies-expected :
    (head_only : Bool) (xs : List Reply)
    → (replies (fresh head_only) xs).sent ≡ expected (fresh head_only) xs
replies-expected head_only xs = replies-unsent (fresh head_only) xs
