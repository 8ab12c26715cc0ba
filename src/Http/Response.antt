-- ===== src/Http/Response.antt =====
-- The response that the handlers of src/WebServer.cpp send: the status line and headers once, then
-- the content.
pub mod Shape
use crosspoint_simulator.Prelude.{
  ℕ, zero, suc, ◌+◌, ◌/◌, ◌%◌, ◌^◌, Bool, true, false, not, ◌&&◌, ◌||◌, List, [], ◌∷◌, ◌++◌, ltb,
  ◌==◌, if◌then◌else◌, length, Bytes, codes, ◌-◌,
}

-- The members of `Impl` for the response, and the bytes handed to the socket. `head_only` is a
-- request with the method HEAD, `connected` a `currentClient` of 0 or more.
pub record Response : Type 0 where
  pub connected : Bool
  pub head_only : Bool
  pub pending_headers : List (Bytes × Bytes)
  pub content_length : ℕ
  pub length_set : Bool
  pub length_unknown : Bool
  pub headers_sent : Bool
  pub sent : Bytes

-- After `resetRequest` and the parse of a request.
abbrev pub fresh : Bool → Response
fresh head_only = record {
  connected = true;
  head_only = head_only;
  pending_headers = [];
  content_length = 0;
  length_set = false;
  length_unknown = false;
  headers_sent = false;
  sent = [];
}

abbrev reasons : List (ℕ × Bytes)
reasons =
    (200, codes "OK")
    ∷ (201, codes "Created")
    ∷ (204, codes "No Content")
    ∷ (207, codes "Multi-Status")
    ∷ (400, codes "Bad Request")
    ∷ (403, codes "Forbidden")
    ∷ (404, codes "Not Found")
    ∷ (405, codes "Method Not Allowed")
    ∷ (409, codes "Conflict")
    ∷ (412, codes "Precondition Failed")
    ∷ (413, codes "Payload Too Large")
    ∷ (415, codes "Unsupported Media Type")
    ∷ (500, codes "Internal Server Error")
    ∷ (501, codes "Not Implemented")
    ∷ []

unfoldable pub reason_in : List (ℕ × Bytes) → ℕ → Bytes
reason_in [] status = codes "OK"
reason_in ((s, text) ∷ rest) status = if status == s then text else reason_in rest status

unfoldable pub reason_for_status : ℕ → Bytes
unfolding reason_in
reason_for_status status = reason_in reasons status

-- A number as `<<` prints it. A round divides it by ten, so more fuel than the number is enough.
unfoldable pub digits : ℕ → ℕ → Bytes
digits zero n = []
digits (suc fuel) n =
    let front = digits fuel (n / 10) in
    if ltb n 10 then (b'0' + n) ∷ [] else front ++ (b'0' + n % 10) ∷ []

unfoldable pub show_number : ℕ → Bytes
unfolding digits
show_number n = digits (n + 1) n

abbrev pub crlf : Bytes
crlf = 13 ∷ 10 ∷ []

unfoldable pub header_lines : List (Bytes × Bytes) → Bytes
header_lines [] = []
header_lines ((name, val) ∷ rest) = name ++ (codes ": " ++ (val ++ (crlf ++ header_lines rest)))

unfoldable pub length_line : Response → ℕ → Bytes
unfolding show_number
length_line r body_len =
    if r.length_unknown
    then []
    else codes "Content-Length: "
      ++ (show_number (if r.length_set then r.content_length else body_len) ++ crlf)

unfoldable pub header_text : Response → ℕ → Bytes → ℕ → Bytes
unfolding reason_for_status header_lines length_line
header_text r code content_type body_len =
    codes "HTTP/1.1 "
    ++ (show_number code
        ++ (codes " "
            ++ (reason_for_status code
                ++ (crlf
                    ++ (length_line r body_len
                        ++ (codes "Connection: close\r\nContent-Type: "
                            ++ (content_type
                                ++ (codes "\r\nAccess-Control-Allow-Origin: *\r\n"
                                    ++ (header_lines r.pending_headers ++ crlf)))))))))

-- `sendAll` on the current client; on a socket that is closed nothing goes out.
unfoldable pub send_all : Response → Bytes → Response
send_all r bytes = if r.connected then record r { sent = r.sent ++ bytes } else r

unfoldable pub emit_headers : Response → ℕ → Bytes → ℕ → Response
unfolding header_text
emit_headers r code content_type body_len =
    if r.headers_sent || not r.connected
    then r
    else record r { sent = r.sent ++ header_text r code content_type body_len; headers_sent = true }

-- A string of C ends at its first NUL.
unfoldable pub c_string : Bytes → Bytes
c_string [] = []
c_string (c ∷ cs) = if c == 0 then [] else c ∷ c_string cs

abbrev pub send_body : Response → Bytes → Response
send_body r body = if not r.head_only && ltb 0 (length body) then send_all r body else r

-- `send_P` and the sends with a length take the bytes as they are; `send` and `sendContent` of a
-- string take it to its first NUL.
unfoldable pub send_p : Response → ℕ → Bytes → Bytes → Response
unfolding emit_headers send_all
send_p r code content_type content =
    send_body (emit_headers r code content_type (length content)) content

unfoldable pub send : Response → ℕ → Bytes → Bytes → Response
unfolding send_p c_string
send r code content_type content = send_p r code content_type (c_string content)

unfoldable pub send_content_p : Response → Bytes → Response
unfolding emit_headers send_all
send_content_p r content =
    send_body
      (if not r.headers_sent then emit_headers r 200 (codes "text/plain") (length content) else r)
      content

unfoldable pub send_content : Response → Bytes → Response
unfolding send_content_p c_string
send_content r content = send_content_p r (c_string content)

unfoldable pub send_header : Response → Bytes → Bytes → Bool → Response
send_header r name val true = record r { pending_headers = (name, val) ∷ r.pending_headers }
send_header r name val false = record r { pending_headers = r.pending_headers ++ (name, val) ∷ [] }

-- `static_cast<int>(len) == -1`
unfoldable pub set_content_length : Response → ℕ → Response
set_content_length r len =
    let unknown = len % 2 ^ 32 == 2 ^ 32 - 1 in
    record r {
      length_unknown = unknown;
      length_set = not unknown;
      content_length = if unknown then r.content_length else len;
    }
