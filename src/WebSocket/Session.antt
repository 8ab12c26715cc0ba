-- ===== src/WebSocket/Session.antt =====
-- The thread of one connected client in src/WebSocketsServer.cpp: the loop that assembles frames
-- to messages and queues an event for each. `close()` clears `active`, which the loop tests before
-- each frame: the number of passes is how often the test finds it set.
pub mod Conversation
pub mod Delivery
pub mod Safety
use crosspoint_simulator.Prelude.{
  ℕ, zero, suc, ◌+◌, Bool, true, false, List, [], ◌∷◌, ◌++◌, Option, none, some, ltb, ◌==◌, ◌||◌,
  if◌then◌else◌, length, Bytes,
}
use crosspoint_simulator.WebSocket.Frame.{WsFrame, max_ws_payload, read_ws_frame, pong_frame}

pub data WStype : Type 0 where
  connected disconnected text bin : WStype

-- `Impl::Event`; `length` is not the size of the payload of a text, which has a zero byte more.
pub record Event : Type 0 where
  pub num : ℕ
  pub kind : WStype
  pub payload : Bytes
  pub len : ℕ

-- The variables of the loop.
pub record Assembly : Type 0 where
  pub message : Bytes
  pub message_opcode : ℕ
  pub in_message : Bool

abbrev pub idle : Assembly
idle = record { message = []; message_opcode = 0; in_message = false }

-- What one pass does: it goes on with a state, an event at most and a frame sent at most, or it
-- leaves the loop.
pub data Pass : Type 0 where
  go : Assembly → List Event → List Bytes → Pass
  leave : Pass

abbrev pub to_list : Option Bytes → List Bytes
to_list none = []
to_list (some b) = b ∷ []

-- `const size_t length = message.size();` and the lines below it.
unfoldable pub deliver : ℕ → Assembly → Pass
deliver num a =
    if a.message_opcode == 0x1
    then go (record a { message = []; in_message = false })
        (record { num = num; kind = text; payload = a.message ++ 0 ∷ []; len = length a.message }
          ∷ [])
        []
    else go (record a { message = []; in_message = false })
        (record { num = num; kind = bin; payload = a.message; len = length a.message } ∷ []) []

-- `if (!frame.fin) continue;`
unfoldable pub finish : ℕ → Bool → Assembly → Pass
unfolding deliver
finish num true a = deliver num a
finish num false a = go a [] []

unfoldable pub start_message : ℕ → Assembly → WsFrame → Pass
unfolding finish
start_message num a f =
    if a.in_message
    then leave
    else finish num f.fin
        (record { message = f.payload; message_opcode = f.opcode; in_message = true })

unfoldable pub continue_message : ℕ → Assembly → WsFrame → Pass
unfolding finish
continue_message num a f =
    if a.in_message
    then if ltb max_ws_payload (length a.message + length f.payload)
      then leave
      else finish num f.fin (record a { message = a.message ++ f.payload })
    else leave

-- The body of the loop.
unfoldable pub on_frame : ℕ → Assembly → WsFrame → Pass
unfolding start_message continue_message pong_frame
on_frame num a f =
    if f.opcode == 0x8
    then leave
    else if f.opcode == 0x9
    then go a [] (to_list (pong_frame f.payload))
    else if f.opcode == 0xa
    then go a [] []
    else if f.opcode == 0x1 || f.opcode == 0x2
    then start_message num a f
    else if f.opcode == 0x0
    then continue_message num a f
    else leave

-- The events queued and the frames sent.
pub record Output : Type 0 where
  pub events : List Event
  pub sent : List Bytes

abbrev pub nothing : Output
nothing = record { events = []; sent = [] }

abbrev pub after : List Event → List Bytes → Output → Output
after es bs o = record { events = es ++ o.events; sent = bs ++ o.sent }

abbrev pub event : ℕ → WStype → Event
event num kind = record { num = num; kind = kind; payload = []; len = 0 }

-- One pass, and then the others.
abbrev pub follow : Pass → (Assembly → Output) → Output
follow leave k = nothing
follow (go a es bs) k = after es bs (k a)

module _ {S : Type 0} (recv : S → ℕ → Option (Bytes × S)) where
  unfoldable pub serve_loop : ℕ → ℕ → Assembly → S → Output
  unfolding on_frame read_ws_frame
  serve_loop zero num a s = nothing
  serve_loop (suc passes) num a s = elim (read_ws_frame recv s) [
    | none ↦ nothing
    | some (f, s') ↦ follow (on_frame num a f) (λ a'. serve_loop passes num a' s')
  ]

  -- From the event of the connection to that of its end.
  unfoldable pub serve_client : ℕ → ℕ → S → Output
  unfolding serve_loop
  serve_client passes num s =
      let o = serve_loop passes num idle s in
      record {
        events = event num connected ∷ o.events ++ event num disconnected ∷ [];
        sent = o.sent;
      }
