-- ===== src/Http/Routing.antt =====
-- `dispatchParkedRequest`, `argByName`, `hasArgName`, `headerByName`, `hasHeaderName`, `emitMultipartAbort`
-- and `on` of src/WebServer.cpp. The handlers are the firmware's: a dispatch is the calls of them that it
-- makes.
pub mod Collected
pub mod Uploads
use crosspoint_simulator.Prelude.{
  ℕ, Bool, true, false, not, ◌&&◌, ◌||◌, List, [], ◌∷◌, ◌++◌, map, Option, none, some,
  if◌then◌else◌, length, is_empty, Bytes, codes, bytes_eq, lower, ◌+◌, ◌==◌,
}
use crosspoint_simulator.WebSocket.Handshake.{Headers}
use crosspoint_simulator.Http.Url.{Args}
use crosspoint_simulator.Http.Body.{chunks}
use crosspoint_simulator.Http.Request.{
  HttpMethod, http_get, http_post, http_put, http_patch, http_delete, http_options, http_propfind,
  http_head, http_mkcol, http_move, http_copy, http_lock, http_unlock, http_any, Parked, contains,
}
use crosspoint_simulator.Http.Response.{c_string}
use crosspoint_simulator.Http.Multipart.{Part, parse_multipart}

-- `uploads` says whether the route has an upload handler.
pub record Route : Type 0 where
  pub uri : Bytes
  pub method : HttpMethod
  pub uploads : Bool

unfoldable pub on : List Route → Bytes → HttpMethod → Bool → List Route
on routes uri method uploads =
    routes ++ record { uri = uri; method = method; uploads = uploads } ∷ []

-- The number of a method in `HTTPMethod`.
abbrev number : HttpMethod → ℕ
number http_get = 0
number http_post = 1
number http_put = 2
number http_patch = 3
number http_delete = 4
number http_options = 5
number http_propfind = 6
number http_head = 7
number http_mkcol = 8
number http_move = 9
number http_copy = 10
number http_lock = 11
number http_unlock = 12
number http_any = 13

abbrev pub same_method : HttpMethod → HttpMethod → Bool
same_method a b = number a == number b

-- What `argByName` returns, or `none` where `hasArgName` is false.
unfoldable pub arg_by_name : Bytes → Args → Option Bytes
arg_by_name name [] = none
arg_by_name name ((n, v) ∷ args) = if bytes_eq n name then some v else arg_by_name name args

unfoldable pub header_by_name : Bytes → Headers → Option Bytes
header_by_name name [] = none
header_by_name name ((n, v) ∷ hs) =
    if bytes_eq (map lower n) (map lower name) then some v else header_by_name name hs

-- The status of `currentUpload` at a call of the upload handler, with its name, its file name, its
-- total size and the bytes of its buffer where these are set.
pub data Upload : Type 0 where
  upload_start : Bytes → Bytes → ℕ → Upload
  upload_write : Bytes → Upload
  upload_end : Upload
  upload_aborted : ℕ → Upload

-- The calls that a dispatch makes: of the route's two handlers, of the `handle` of the request handler
-- at a place, of the handler for what is not found, or of `send`.
pub data Step : Type 0 where
  upload_handler : Upload → Step
  route_handler not_found_handler : Step
  request_handler : ℕ → Step
  sends : ℕ → Bytes → Step

-- What `canHandle` and `handle` of a request handler return for the request.
pub record RequestHandler : Type 0 where
  pub can_handle : Bool
  pub handles : Bool

unfoldable pub part_steps : Part → List Step
unfolding c_string chunks
part_steps p =
    upload_handler (upload_start (c_string p.name) (c_string p.filename) (length p.bytes))
      ∷ map (λ bytes. upload_handler (upload_write bytes)) (chunks (length p.bytes) p.bytes)
    ++ upload_handler upload_end ∷ []

-- The loop over the parts with a file name.
unfoldable pub file_steps : List Part → List Step
unfolding part_steps
file_steps [] = []
file_steps (p ∷ ps) =
    let rest = file_steps ps in if is_empty p.filename then rest else part_steps p ++ rest

-- The arguments that the other parts become.
unfoldable pub field_args : List Part → Args
field_args [] = []
field_args (p ∷ ps) =
    let rest = field_args ps in if is_empty p.filename then (p.name, p.bytes) ∷ rest else rest

-- The calls, and the arguments that are added before them.
pub record Dispatched : Type 0 where
  pub steps : List Step
  pub added : Args

abbrev pub calls_only : List Step → Dispatched
calls_only steps = record { steps = steps; added = [] }

abbrev pub uploaded : List Part → Dispatched
uploaded [] = calls_only (sends 400 (codes "Malformed multipart body") ∷ [])
uploaded (p ∷ ps) = record {
  steps = file_steps (p ∷ ps) ++ route_handler ∷ [];
  added = field_args (p ∷ ps);
}

-- `currentBody`: what it had before, where the body went to raw handlers.
abbrev pub current_body : Bytes → Option Bytes → Bytes
current_body kept none = kept
current_body kept (some body) = body

-- The route that matches.
unfoldable pub run_route : Bytes → Parked → Route → Dispatched
unfolding file_steps field_args parse_multipart contains
run_route kept req route =
    if route.uploads && contains (codes "multipart/form-data") req.content_type
    then uploaded (parse_multipart req.content_type (current_body kept req.body))
    else calls_only (route_handler ∷ [])

unfoldable pub matches : Parked → Route → Bool
matches req route =
    bytes_eq route.uri req.uri
    && (same_method route.method req.method
        || (same_method route.method http_any
            || (same_method req.method http_head && same_method route.method http_get)))

-- The loop over the request handlers from place `i` on.
unfoldable pub run_handlers : ℕ → Bool → List RequestHandler → List Step
run_handlers i not_found [] =
    (if not_found then not_found_handler else sends 404 (codes "Not Found")) ∷ []
run_handlers i not_found (h ∷ hs) =
    let later = run_handlers (i + 1) not_found hs in
    if h.can_handle
    then if h.handles then request_handler i ∷ [] else request_handler i ∷ later
    else later

-- `not_found` says whether a handler for what is not found is set.
unfoldable pub dispatch : List Route → List RequestHandler → Bool → Bytes → Parked → Dispatched
unfolding run_route matches run_handlers
dispatch [] handlers not_found kept req = calls_only (run_handlers 0 not_found handlers)
dispatch (route ∷ routes) handlers not_found kept req =
    let later = dispatch routes handlers not_found kept req in
    if matches req route then run_route kept req route else later

-- The upload handler is told of an upload that does not arrive in full.
unfoldable pub multipart_abort : List Route → Parked → List Step
multipart_abort [] req = []
multipart_abort (route ∷ routes) req =
    let later = multipart_abort routes req in
    if route.uploads
      && (bytes_eq route.uri req.uri
          && (same_method route.method req.method || same_method route.method http_any))
    then upload_handler (upload_aborted req.content_length) ∷ []
    else later
