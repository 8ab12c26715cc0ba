-- ===== src/WebSocket/Tests.antt =====
-- Runs of the WebSocket server on concrete inputs, and its theorems at such inputs.
use crosspoint_simulator.WebSocket.Handshake.{assign}
use crosspoint_simulator.Prelude.{
  bytes_eq, ◌≡◌, refl, true, false, List, [], ◌∷◌, ◌++◌, some, arith, length, Bytes, codes, lookup,
  lower, find, trim,
}
use crosspoint_simulator.WebSocket.Socket.{segment, interrupted, Socket, recv_all, contents, split}
use crosspoint_simulator.WebSocket.Frame.{WsFrame, read_ws_frame}
use crosspoint_simulator.WebSocket.Frame.RoundTrip.{
  Mask, masked_by, masked, unmasked, wire, length_code, extended, read_ws_frame-wire,
}
use crosspoint_simulator.WebSocket.Session.{
  connected, disconnected, idle, event, serve_loop, serve_client,
}
use crosspoint_simulator.WebSocket.Session.Conversation.{
  ping, Exchange, say, textual, binary, conversation_output,
}
use crosspoint_simulator.WebSocket.Session.Delivery.{wires, serve_client-conversation}
use crosspoint_simulator.WebSocket.Session.Safety.{
  OutputWithinLimit, serve_loop-WithinLimit, serve_loop-ends,
}
use crosspoint_simulator.WebSocket.Clients.{Impl, add_client}
use crosspoint_simulator.WebSocket.Clients.Queue.{Action, adds, pushes, loops, removes}
use crosspoint_simulator.WebSocket.Base64.{base64_encode}
use crosspoint_simulator.WebSocket.Base64.RoundTrip.{length-base64_encode}
use crosspoint_simulator.WebSocket.Sha1.{sha1_digest, websocket_accept_value}
use crosspoint_simulator.WebSocket.Handshake.{handshake, response, drop_return}

-- The example of RFC 6455 section 1.3.
accept_rfc :
    websocket_accept_value (codes "dGhlIHNhbXBsZSBub25jZQ==") ≡ codes "s3pPLMBiTxaQ9kYGzzhZRbK+xOo="
unfolding websocket_accept_value
accept_rfc = refl

-- The digest of "abc" in FIPS 180-4.
sha1_abc :
    sha1_digest (codes "abc")
    ≡ 0xa9 ∷ 0x99 ∷ 0x3e ∷ 0x36 ∷ 0x47 ∷ 0x06 ∷ 0x81 ∷ 0x6a ∷ 0xba ∷ 0x3e ∷ 0x25 ∷ 0x71 ∷ 0x78
      ∷ 0x50 ∷ 0xc2 ∷ 0x6c ∷ 0x9c ∷ 0xd0 ∷ 0xd8 ∷ 0x9d ∷ []
unfolding sha1_digest
sha1_abc = refl

abbrev request : Socket
request =
    segment b'G' (codes "ET / HTTP/1.1\r\nHost: phone\r\nSec-WebSocket-Ke")
    ∷ segment b'y' (codes ": dGhlIHNhbXBsZSBub25jZQ== \r\n\r\n")
    ∷ []

answers_key : handshake request ≡ some (response (codes "dGhlIHNhbXBsZSBub25jZQ=="), [])
unfolding handshake find lower trim drop_return assign bytes_eq
answers_key = refl

-- "Hello" in one masked text frame, an example of RFC 6455 section 5.7.
abbrev hello : WsFrame
hello = record { opcode = 1; fin = true; payload = codes "Hello" }

abbrev hello_mask : Mask
hello_mask = masked_by 0x37 0xfa 0x21 0x3d

abbrev hello_bytes : Bytes
hello_bytes = 0x81 ∷ 0x85 ∷ 0x37 ∷ 0xfa ∷ 0x21 ∷ 0x3d ∷ 0x7f ∷ 0x9f ∷ 0x4d ∷ 0x51 ∷ 0x58 ∷ []

reads_hello : read_ws_frame split hello_bytes ≡ some (hello, [])
unfolding read_ws_frame split
reads_hello = refl

-- The same bytes in two segments with a signal between them.
abbrev hello_socket : Socket
hello_socket =
    segment 0x81 (0x85 ∷ 0x37 ∷ 0xfa ∷ [])
    ∷ interrupted
    ∷ segment 0x21 (0x3d ∷ 0x7f ∷ 0x9f ∷ 0x4d ∷ 0x51 ∷ 0x58 ∷ [])
    ∷ []

read_ws_frame-wire_example :
    read_ws_frame split (wire hello_mask hello ++ 0x89 ∷ []) ≡ some (hello, 0x89 ∷ [])
read_ws_frame-wire_example =
    read_ws_frame-wire hello_mask hello (0x89 ∷ []) (omega arith) (omega arith)

-- "Hello" as two fragments with a ping between them.
abbrev talk : List Exchange
talk =
    say binary (codes "Hel") (record { before = ping (codes "?") ∷ []; slice = codes "lo" } ∷ [])
    ∷ say textual (codes "!") []
    ∷ []

abbrev talk_frames : List (Mask × WsFrame)
talk_frames =
    (hello_mask, record { opcode = 2; fin = false; payload = codes "Hel" })
    ∷ (unmasked, record { opcode = 9; fin = true; payload = codes "?" })
    ∷ (hello_mask, record { opcode = 0; fin = true; payload = codes "lo" })
    ∷ (hello_mask, record { opcode = 1; fin = true; payload = codes "!" })
    ∷ []

-- The first byte of a stream apart, as a segment has it.
abbrev as_segment : Bytes → Socket
as_segment [] = []
as_segment (b ∷ bs) = segment b bs ∷ []

talk_contents : contents (as_segment (wires talk_frames)) ≡ wires talk_frames
unfolding contents wire length_code extended masked
talk_contents = refl

serve_client-conversation_example :
    ((serve_client recv_all 10 7 (as_segment (wires talk_frames))).events
      ≡ event 7 connected ∷ (conversation_output 7 talk).events ++ event 7 disconnected ∷ [])
    × ((serve_client recv_all 10 7 (as_segment (wires talk_frames))).sent
        ≡ (conversation_output 7 talk).sent)
serve_client-conversation_example =
    serve_client-conversation 10 7 (as_segment (wires talk_frames)) talk_frames talk talk_contents
      refl (omega arith) (omega arith) (omega arith)

serve_loop-WithinLimit_example : OutputWithinLimit (serve_loop split 3 0 idle hello_bytes)
serve_loop-WithinLimit_example = serve_loop-WithinLimit 3 0 idle hello_bytes (omega arith)

serve_loop-ends_example :
    serve_loop split 11 0 idle hello_bytes ≡ serve_loop split 99 0 idle hello_bytes
serve_loop-ends_example = serve_loop-ends 11 99 0 idle hello_bytes (omega arith) (omega arith)

-- Two clients, 255 and 0; the next number tried is 255.
abbrev two_clients : Impl
two_clients = record { clients = (0, 11) ∷ (255, 10) ∷ []; next_client = 255; pending_events = [] }

adds_third : (add_client two_clients 12).0 ≡ 1
unfolding add_client lookup
adds_third = refl

abbrev actions : List Action
actions =
    adds 12
    ∷ pushes (event 1 connected)
    ∷ loops false
    ∷ pushes (event 1 disconnected)
    ∷ loops true
    ∷ pushes (event 2 connected)
    ∷ removes 1
    ∷ []

length-base64_encode_example : length (base64_encode (codes "Hello")) ≡ 8
length-base64_encode_example = length-base64_encode (codes "Hello")

abbrev header_lines : List Bytes
header_lines =
    codes "Host: phone\r"
    ∷ (codes "SEC-WebSocket-Key" ++ b':' ∷ codes " abc \r")
    ∷ codes "Accept: */*\r"
    ∷ []
