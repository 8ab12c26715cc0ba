-- ===== src/Http/Request.antt =====
-- What the accept worker of src/WebServer.cpp does with a request whose headers it has: refuse it
-- with a status, or take in its body and park it for `handleClient`.
pub mod Acceptance
use crosspoint_simulator.Prelude.{
  ℕ, zero, suc, ◌+◌, ◌*◌, ◌-◌, ◌^◌, min, Bool, true, false, not, ◌&&◌, List, [], ◌∷◌, ◌++◌, Option,
  none, some, map, length, take, drop, is_empty, all, any, ltb, leb, ◌==◌, if◌then◌else◌, Bytes,
  codes, find, lower, bytes_eq, is_space, trim_left,
}
use crosspoint_simulator.WebSocket.Socket.{Socket}
use crosspoint_simulator.WebSocket.Handshake.{Headers, header, get_lines, drop_return, add_headers}
use crosspoint_simulator.Http.Url.{Args, url_decode, parse_args}
use crosspoint_simulator.Http.Body.{RawEvent, raw_start, raw_aborted, Body, read_body}

-- `HTTPMethod`
pub data HttpMethod : Type 0 where
  http_get http_post http_put http_patch http_delete http_options http_propfind http_head http_mkcol
        http_move http_copy http_lock http_unlock http_any :
      HttpMethod

abbrev methods : List (Bytes × HttpMethod)
methods =
    (codes "GET", http_get)
    ∷ (codes "POST", http_post)
    ∷ (codes "PUT", http_put)
    ∷ (codes "PATCH", http_patch)
    ∷ (codes "DELETE", http_delete)
    ∷ (codes "OPTIONS", http_options)
    ∷ (codes "PROPFIND", http_propfind)
    ∷ (codes "HEAD", http_head)
    ∷ (codes "MKCOL", http_mkcol)
    ∷ (codes "MOVE", http_move)
    ∷ (codes "COPY", http_copy)
    ∷ (codes "LOCK", http_lock)
    ∷ (codes "UNLOCK", http_unlock)
    ∷ []

unfoldable pub method_in : List (Bytes × HttpMethod) → Bytes → HttpMethod
method_in [] text = http_any
method_in ((name, m) ∷ rest) text = if bytes_eq text name then m else method_in rest text

unfoldable pub method_from_string : Bytes → HttpMethod
unfolding method_in
method_from_string text = method_in methods text

-- `stream >> word`: what is up to the next white space.
unfoldable pub word_of : Bytes → Bytes
word_of [] = []
word_of (c ∷ cs) = if is_space c then [] else c ∷ word_of cs

pub record Head : Type 0 where
  pub method_text : Bytes
  pub target : Bytes
  pub headers : Headers

abbrev first_line : List Bytes → Bytes
first_line [] = []
first_line (l ∷ ls) = l

abbrev other_lines : List Bytes → List Bytes
other_lines [] = []
other_lines (l ∷ ls) = ls

-- The bytes before the blank line. The header lines are split as in the handshake of the WebSocket
-- server, whose code for it is the same.
unfoldable pub parse_head : Bytes → Head
unfolding word_of get_lines drop_return add_headers
parse_head text =
    let lines = get_lines [] text in
    let request_line = trim_left (drop_return (first_line lines)) in
    let method_text = word_of request_line in
    record {
      method_text = method_text;
      target = word_of (trim_left (drop (length method_text) request_line));
      headers = add_headers [] (other_lines lines);
    }

unfoldable pub contains : Bytes → Bytes → Bool
contains needle text = elim (find needle text) [ none ↦ false | some _ ↦ true ]

abbrev pub chunked_value : Option Bytes → Bool
chunked_value none = false
chunked_value (some v) = contains (codes "chunked") (map lower v)

unfoldable pub is_chunked : Headers → Bool
unfolding contains
is_chunked hs = chunked_value (header (codes "transfer-encoding") hs)

abbrev pub is_digit : ℕ → Bool
is_digit c = leb b'0' c && leb c b'9'

unfoldable pub decimal : ℕ → Bytes → ℕ
decimal acc [] = acc
decimal acc (c ∷ cs) = decimal (acc * 10 + (c - b'0')) cs

-- `strtoull` of a string of digits: the largest `unsigned long long` when the number is larger.
abbrev pub length_value : Option Bytes → Option ℕ
length_value none = some 0
length_value (some v) =
    if is_empty v
    then none
    else if all is_digit v
    then some (min (decimal 0 v) (2 ^ 64 - 1))
    else none

-- `none` is a Content-Length that is refused.
unfoldable pub body_length : Headers → Option ℕ
unfolding decimal
body_length hs = length_value (header (codes "content-length") hs)

unfoldable pub path_of : Bytes → Bytes
path_of target = elim (find (b'?' ∷ []) target) [
  | none ↦ url_decode target
  | some q ↦ url_decode (take q target)
]

unfoldable pub query_args : Bytes → Args
query_args target = elim (find (b'?' ∷ []) target) [
  | none ↦ []
  | some q ↦ parse_args (drop (q + 1) target)
]

abbrev pub is_nul : ℕ → Bool
is_nul c = c == 0

abbrev pub max_body_size : ℕ
max_body_size = 268435456

-- The parked request. Its `body` is `none` where `currentBody` keeps what it had.
pub record Parked : Type 0 where
  pub method : HttpMethod
  pub uri : Bytes
  pub args : Args
  pub headers : Headers
  pub content_type : Bytes
  pub body : Option Bytes
  pub content_length : ℕ

pub data Outcome : Type 0 where
  answered : ℕ → Bytes → Outcome
  parked : Parked → Outcome

-- The events for the raw handlers, whether `emitMultipartAbort` is called, and the outcome.
pub record Served : Type 0 where
  pub events : List RawEvent
  pub upload_abort : Bool
  pub outcome : Outcome

abbrev pub refuse : ℕ → Bytes → Served
refuse status message = record {
  events = [];
  upload_abort = false;
  outcome = answered status message;
}

abbrev pub value_or_empty : Option Bytes → Bytes
value_or_empty none = []
value_or_empty (some v) = v

-- The arguments that a body without a raw handler adds.
unfoldable pub body_args : Bytes → Bytes → Args
unfolding contains parse_args
body_args content_type body =
    if contains (codes "application/x-www-form-urlencoded") content_type
    then parse_args body
    else if not (is_empty body) && not (contains (codes "multipart/form-data") content_type)
    then (codes "plain", body) ∷ []
    else []

abbrev pub root_if_empty : Bytes → Bytes
root_if_empty [] = b'/' ∷ []
root_if_empty (c ∷ cs) = c ∷ cs

-- Behind the checks of the length.
unfoldable pub take_body : Bool → Head → Bytes → ℕ → Bytes → Socket → Served
unfolding read_body body_args query_args method_from_string
take_body raw_handlers head path n early s =
    let b = read_body raw_handlers n early s in
    let content_type = value_or_empty (header (codes "content-type") head.headers) in
    if b.complete
    then record {
      events = b.events;
      upload_abort = false;
      outcome = parked (record {
        method = method_from_string head.method_text;
        uri = root_if_empty path;
        args =
            query_args head.target ++ (if raw_handlers then [] else body_args content_type b.body);
        headers = head.headers;
        content_type = content_type;
        body = if raw_handlers then none else some b.body;
        content_length = n;
      });
    }
    else record {
      events = b.events;
      upload_abort = contains (codes "multipart/form-data") content_type;
      outcome = answered 400 (codes "Incomplete request body");
    }

abbrev too_large : Bool → Served
too_large raw_handlers = record {
  events = if raw_handlers then raw_start ∷ raw_aborted ∷ [] else [];
  upload_abort = false;
  outcome = answered 413 (codes "Payload Too Large");
}

unfoldable pub serve_framed : (Bytes → Bool) → Head → Option ℕ → Bytes → Socket → Served
unfolding take_body path_of
serve_framed can_raw head none early s = refuse 400 (codes "Bad Content-Length")
serve_framed can_raw head (some n) early s =
    let path = path_of head.target in
    let raw_handlers = can_raw (root_if_empty path) in
    if any is_nul path
    then refuse 400 (codes "NUL in path")
    else if ltb max_body_size n
    then too_large raw_handlers
    else take_body raw_handlers head path n early s

-- `can_raw` says whether some handler takes the body of a request for a path as raw events.
unfoldable pub serve_request : (Bytes → Bool) → Bytes → Bytes → Socket → Served
unfolding parse_head is_chunked body_length serve_framed
serve_request can_raw text early s =
    let head = parse_head text in
    if is_chunked head.headers
    then refuse 501 (codes "Chunked transfer encoding not supported")
    else serve_framed can_raw head (body_length head.headers) early s
