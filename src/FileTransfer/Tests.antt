-- ===== src/FileTransfer/Tests.antt =====
-- Runs of the file-transfer server of src/CrossPointWebServer.cpp on concrete inputs, and its theorems
-- at such inputs.
use crosspoint_simulator.Prelude.{
  inl, inr, ◌≡◌, refl, arith, List, [], ◌∷◌, none, some, true, false, Bytes, codes, find,
  starts_with, bytes_eq, is_space,
}
use crosspoint_simulator.WebSocket.Socket.{segment, Socket}
use crosspoint_simulator.WebSocket.Handshake.{Headers, header}
use crosspoint_simulator.Http.Response.{c_string}
use crosspoint_simulator.FileTransfer.Decode.{url_decode, pieces}
use crosspoint_simulator.FileTransfer.Path.{normalize_path, basename_of}
use crosspoint_simulator.FileTransfer.Path.Normal.{normalize_path-segments}
use crosspoint_simulator.FileTransfer.Request.{Request, parse_request}
use crosspoint_simulator.FileTransfer.Request.Reads.{stream}
use crosspoint_simulator.FileTransfer.Request.Framing.{framed, parse_request-stream}
use crosspoint_simulator.FileTransfer.Multipart.{parse_multipart_file}
use crosspoint_simulator.FileTransfer.Multipart.Form.{Form, form_text, parse_multipart_file-form}
use crosspoint_simulator.FileTransfer.Storage.{
  Call, exists, open_at, make_dir, remove_file, remove_dir, rename_to, copy_to, write_to,
  begin_upload, end_upload, Answer, Program, done, ask, Every,
}
use crosspoint_simulator.FileTransfer.Reply.{Reply}
use crosspoint_simulator.FileTransfer.Browse.{forbidden, is_refused_entry}
use crosspoint_simulator.FileTransfer.Change.{delete}
use crosspoint_simulator.FileTransfer.Routes.{handle, serve}
use crosspoint_simulator.FileTransfer.Routes.Calls.{AllowedCall}
use crosspoint_simulator.FileTransfer.Routes.Guarded.{serve-AllowedCall}
use crosspoint_simulator.FileTransfer.Routes.ReadOnly.{ReadCall, handle-ReadCall}
use crosspoint_simulator.FileTransfer.Routes.Protected.{dotted}
use crosspoint_simulator.FileTransfer.Routes.Refused.{put_refused, handle-Refused}

-- The two bytes behind a percent sign are what `strtol` makes of them: a sign counts, too.
decode_sign : url_decode (codes "a%-1%+2% 3%4g") ≡ b'a' ∷ 255 ∷ 2 ∷ 3 ∷ codes "%4g"
unfolding url_decode is_space
decode_sign = refl

normalize_path-segments_example : normalize_path (codes "books//a%20b/") ≡ codes "/books/a b"
unfolding pieces url_decode bytes_eq
normalize_path-segments_example = normalize_path-segments (codes "books//a%20b/")

steps_back : normalize_path (codes "/books/%2e%2e/x") ≡ []
unfolding normalize_path find bytes_eq
steps_back = refl

abbrev put_text : Bytes
put_text = codes "PUT /books/a HTTP/1.1\r\nContent-Length: 3\r\n\r\nabcd"

abbrev put_socket : Socket
put_socket =
    segment b'P' (codes "UT /books/a HTTP/1.1\r\nContent-Length: 3\r\n\r")
    ∷ segment 10 (codes "ab")
    ∷ segment b'c' (codes "d")
    ∷ []

parse_request-stream_example :
    parse_request put_socket
    ≡ framed (codes "PUT /books/a HTTP/1.1\r\nContent-Length: 3") (codes "abcd")
unfolding stream find
parse_request-stream_example = parse_request-stream put_socket 40 refl (omega arith)

abbrev form_headers : Headers
form_headers = (codes "content-type", codes "multipart/form-data; boundary=XY") ∷ []

abbrev form : Form
form = record {
  kind = codes "multipart/form-data; ";
  token = codes "XY";
  fields = (codes "Content-Disposition: form-data; name=\"a\"", codes "1") ∷ [];
  before = codes "Content-Disposition: form-data; name=\"file\"; ";
  name = codes "C/b.epub";
  after = [];
  content = codes "--XY\r\n--X";
  rest = codes "--";
}

parse_multipart_file-form_example :
    parse_multipart_file form_headers (form_text form) ≡ some (codes "b.epub", codes "--XY\r\n--X")
unfolding header find starts_with basename_of bytes_eq
parse_multipart_file-form_example =
    parse_multipart_file-form form_headers form refl
      (refl, ((refl, refl), tt), (refl, tt), ((refl, refl), refl, refl))

abbrev request : Bytes → Bytes → Request
request method path = record {
  method = method;
  target = path;
  path = path;
  query = [];
  headers = [];
  body = [];
}

serve-AllowedCall_example : Every AllowedCall (serve (codes "<html>") (codes "1.0") put_socket)
serve-AllowedCall_example = serve-AllowedCall (codes "<html>") (codes "1.0") put_socket

handle-ReadCall_example :
    Every ReadCall
      (handle (codes "<html>") (codes "1.0") (request (codes "HEAD") (codes "/download")))
unfolding bytes_eq
handle-ReadCall_example =
    handle-ReadCall (codes "<html>") (codes "1.0") (request (codes "HEAD") (codes "/download")) refl

handle-Refused_example :
    handle (codes "<html>") (codes "1.0") (request (codes "PUT") (codes "/books/.trash"))
    ≡ forbidden
unfolding normalize_path is_refused_entry bytes_eq find
handle-Refused_example =
    handle-Refused (codes "<html>") (codes "1.0") (request (codes "PUT") (codes "/books/.trash"))
      refl (put_refused (inl (inr (inl (dotted (codes "trash"))))))

-- The calls of a run in which nothing is there and each change succeeds.
abbrev nothing_there : (c : Call) → Answer c
nothing_there (exists p) = false
nothing_there (open_at p) = none
nothing_there (make_dir p) = true
nothing_there (remove_file p) = true
nothing_there (remove_dir p) = true
nothing_there (rename_to p q) = true
nothing_there (copy_to p q) = true
nothing_there (write_to p bytes) = none
nothing_there (begin_upload name total) = tt
nothing_there (end_upload ok name size) = tt

abbrev calls_of : Program Reply → List Call
calls_of (done r) = []
calls_of (ask c k) = c ∷ calls_of (k (nothing_there c))

-- A NUL hides the rest of a name from storage, but not from the check: a protected folder is removed.
delete_protected :
    calls_of (delete (normalize_path (codes "/XTCache%00x")))
    ≡ open_at (codes "/XTCache") ∷ remove_file (codes "/XTCache") ∷ []
unfolding delete normalize_path c_string find bytes_eq
delete_protected = refl
