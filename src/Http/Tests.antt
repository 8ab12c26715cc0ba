-- ===== src/Http/Tests.antt =====
-- Runs of the HTTP server on concrete inputs, and its theorems at such inputs.
use crosspoint_simulator.WebSocket.Handshake.{header, assign}
use crosspoint_simulator.Http.Response.{fresh}
use crosspoint_simulator.Http.Response.Shape.{
  Reply, sends, sends_content, content_length, replies, expected, replies-expected,
}
use crosspoint_simulator.Http.Multipart.{header_param, parse_multipart}
use crosspoint_simulator.Http.Multipart.Fields.{parse_multipart-form}
use crosspoint_simulator.Http.Routing.{Route, uploaded, matches, dispatch}
use crosspoint_simulator.Http.Routing.Uploads.{Form, body_of}
use crosspoint_simulator.Http.Dispatch.{
  Hub, initial, Action, begin, park, handle_client, handlers_return, wake, stop, leave_loop, Event,
  ran, closed, run, accepting,
}
use crosspoint_simulator.Http.Dispatch.Cycle.{Phase, state, free, handled, due, cycles, run-cycles}
use crosspoint_simulator.Http.Dispatch.Abandoned.{stop-park-wake}
use crosspoint_simulator.Prelude.{
  length, flatten, find, starts_with, bytes_eq, lower, trim, List, [], ◌∷◌, codes, some, true,
  false, arith, refl, ◌≡◌, Bytes, Bool, ◌++◌, none,
}
use crosspoint_simulator.WebSocket.Socket.{segment, interrupted, Socket, contents}
use crosspoint_simulator.Http.Url.{url_decode, parse_args}
use crosspoint_simulator.Http.Url.Spelling.{Spelling, literal, plus, percent}
use crosspoint_simulator.Http.Url.Args.{Field, parse_args-form}
use crosspoint_simulator.Http.Body.{raw_start, raw_write, raw_end, read_body}
use crosspoint_simulator.Http.Body.Streaming.{Streamed, read_body-Streamed}
use crosspoint_simulator.Http.Request.{
  Parked, http_get, http_post, contains, http_put, serve_request, parked,
}
use crosspoint_simulator.Http.Request.Acceptance.{
  Acceptable, ParkedFrom, serve_request-parked, serve_request-accepts,
}

decode_malformed : url_decode (codes "50%+a%zz%4") ≡ codes "50% a%zz%4"
unfolding url_decode
decode_malformed = refl

abbrev text_ab : List Spelling
text_ab =
    literal b'a' refl
    ∷ plus
    ∷ percent 2 6 (omega arith) (omega arith) true false
    ∷ percent 12 3 (omega arith) (omega arith) false true
    ∷ []

abbrev fields : List Field
fields = (text_ab, []) ∷ (literal b'p' refl ∷ [], text_ab) ∷ []

parse_args-form_example :
    parse_args (codes "a+%26%c3=&p=a+%26%c3")
    ≡ (b'a' ∷ b' ' ∷ 0x26 ∷ 0xc3 ∷ [], []) ∷ (b'p' ∷ [], b'a' ∷ b' ' ∷ 0x26 ∷ 0xc3 ∷ []) ∷ []
parse_args-form_example = parse_args-form fields ((refl, refl, refl), ((refl, refl, refl), tt))

abbrev arriving : Socket
arriving = segment b'l' (codes "o") ∷ interrupted ∷ segment b'!' (codes "GET") ∷ []

body-events :
    (read_body true 6 (codes "hel") arriving).events
    ≡ raw_start
      ∷ raw_write (codes "hel")
      ∷ raw_write (codes "lo")
      ∷ raw_write (codes "!")
      ∷ raw_end
      ∷ []
unfolding read_body flatten
body-events = refl

read_body-Streamed_example :
    let raw = read_body true 6 (codes "hel") arriving in
    let kept = read_body false 6 (codes "hel") arriving in
    Streamed 6 (codes "hello!GET") raw.events
    × (raw.complete ≡ true)
    × (kept.body ≡ codes "hello!")
    × (kept.complete ≡ true)
    × (kept.events ≡ [])
unfolding contents
read_body-Streamed_example = read_body-Streamed 6 (codes "hel") arriving

abbrev put_text : Bytes
put_text = codes "PUT /a%20b?x=1 HTTP/1.1\r\nContent-Length: 6\r\ncontent-type: text/plain"

abbrev no_raw : Bytes → Bool
no_raw uri = false

abbrev put_parked : Parked
put_parked = record {
  method = http_put;
  uri = codes "/a b";
  args = (codes "x", codes "1") ∷ (codes "plain", codes "hello!") ∷ [];
  headers = (codes "content-length", codes "6") ∷ (codes "content-type", codes "text/plain") ∷ [];
  content_type = codes "text/plain";
  body = some (codes "hello!");
  content_length = 6;
}

put_served : (serve_request no_raw put_text (codes "hel") arriving).outcome ≡ parked put_parked
unfolding serve_request header find assign bytes_eq lower trim flatten
put_served = refl

serve_request-parked_example : ParkedFrom no_raw put_text (codes "hel") arriving put_parked
serve_request-parked_example =
    serve_request-parked no_raw put_text (codes "hel") arriving put_parked put_served

put-Acceptable : Acceptable put_text (codes "hel") arriving 6
put-Acceptable =
    (serve_request-parked no_raw put_text (codes "hel") arriving put_parked put_served).0

serve_request-accepts_example :
    (p : Parked) × ((serve_request no_raw put_text (codes "hel") arriving).outcome ≡ parked p)
    × (p.content_length ≡ 6)
serve_request-accepts_example =
    serve_request-accepts no_raw put_text (codes "hel") arriving 6 put-Acceptable

abbrev calls : List Reply
calls =
    Reply.header (codes "X-A") (codes "1") false
    ∷ content_length 5
    ∷ sends 404 (codes "text/html") (codes "no")
    ∷ sends_content (codes "pe!")
    ∷ []

replies-calls :
    (replies (fresh false) calls).sent
    ≡ codes
        "HTTP/1.1 404 Not Found\r\nContent-Length: 5\r\nConnection: close\r\nContent-Type: text/html\r\nAccess-Control-Allow-Origin: *\r\nX-A: 1\r\n\r\nnope!"
unfolding replies
replies-calls = refl

replies-expected_example : (replies (fresh true) calls).sent ≡ expected (fresh true) calls
replies-expected_example = replies-expected true calls

abbrev served_once : List Action
served_once =
    begin
    ∷ handle_client
    ∷ park put_parked
    ∷ handle_client
    ∷ handlers_return
    ∷ wake
    ∷ park put_parked
    ∷ handle_client
    ∷ []

abbrev events_once : List Event
events_once = ran (some put_parked) ∷ closed (some put_parked) ∷ ran (some put_parked) ∷ []

run-served_once : run initial served_once ≡ some (state (handled put_parked), events_once)
unfolding run
run-served_once = refl

run-cycles_example :
    (p : Phase) × (state (handled put_parked) ≡ state p)
    × (events_once ++ due p ≡ cycles served_once)
run-cycles_example =
    run-cycles served_once (state (handled put_parked)) events_once refl run-served_once

abbrev restarted : Hub
restarted = record {
  active = true;
  pending = false;
  done = false;
  abandoned = true;
  current = none;
  worker = accepting;
  handling = false;
}

run-restarted : run (state (free false)) (stop ∷ leave_loop ∷ begin ∷ []) ≡ some (restarted, [])
unfolding run
run-restarted = refl

stop-park-wake_example :
    (g : Hub) × (run restarted (park put_parked ∷ wake ∷ [])
      ≡ some (g, closed (some put_parked) ∷ []))
stop-park-wake_example =
    stop-park-wake (state (free false)) restarted (leave_loop ∷ begin ∷ []) [] put_parked
      run-restarted refl

abbrev posted_form : Form
posted_form = record {
  kind = codes "multipart/form-data; ";
  token = codes "XY";
  in_quotes = true;
  parts =
      record {
        front = codes "Content-Disposition: form-data; ";
        name = codes "dir";
        filename = none;
        behind = [];
        content = codes "/books";
      }
      ∷ record {
        front = codes "Content-Disposition: form-data; ";
        name = codes "f";
        filename = some (codes "a.txt");
        behind = codes "\r\nContent-Type: text/plain";
        content = codes "one\r\ntwo";
      }
      ∷ [];
  after = [];
}

parse_multipart-form_example :
    parse_multipart (codes "multipart/form-data; boundary=\"XY\"") (body_of posted_form)
    ≡ record { name = codes "dir"; filename = []; bytes = codes "/books" }
      ∷ record { name = codes "f"; filename = codes "a.txt"; bytes = codes "one\r\ntwo" }
      ∷ []
unfolding header_param find starts_with
parse_multipart-form_example =
    parse_multipart-form posted_form.kind posted_form.token true posted_form.parts [] refl refl
      ((refl, refl, refl, (refl, refl)), ((refl, refl, (refl, refl), (refl, refl)), tt))

abbrev post_request : Parked
post_request = record {
  method = http_post;
  uri = codes "/upload";
  args = [];
  headers = [];
  content_type = codes "multipart/form-data; boundary=\"XY\"";
  body = some (body_of posted_form);
  content_length = length (body_of posted_form);
}

abbrev upload_page : Route
upload_page = record { uri = codes "/upload"; method = http_get; uploads = false }

abbrev upload_route : Route
upload_route = record { uri = codes "/upload"; method = http_post; uploads = true }

malformed_form :
    dispatch
      (upload_route ∷ [])
      []
      false
      []
      (record post_request { content_type = codes "multipart/form-data" })
    ≡ uploaded []
unfolding dispatch contains matches parse_multipart find starts_with bytes_eq
malformed_form = refl
