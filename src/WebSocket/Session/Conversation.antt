-- ===== src/WebSocket/Session/Conversation.antt =====
-- What a peer may say by RFC 6455 section 5.4: messages cut into fragments, with control frames
-- before each fragment, and the frames, events and answers that this stands for.
use crosspoint_simulator.Prelude.{ℕ, ◌≤◌, true, List, [], ◌∷◌, ◌++◌, map, length, is_empty, Bytes}
use crosspoint_simulator.WebSocket.Frame.{WsFrame, max_ws_payload, pong_frame}
use crosspoint_simulator.WebSocket.Session.{Event, text, bin, Output, nothing, after, to_list}

pub data Control : Type 0 where
  ping pong : Bytes → Control

pub record Fragment : Type 0 where
  pub before : List Control
  pub slice : Bytes

pub data Kind : Type 0 where
  textual binary : Kind

pub data Exchange : Type 0 where
  control : Control → Exchange
  say : Kind → Bytes → List Fragment → Exchange

abbrev pub control_frame : Control → WsFrame
control_frame (ping p) = record { opcode = 0x9; fin = true; payload = p }
control_frame (pong p) = record { opcode = 0xa; fin = true; payload = p }

abbrev pub kind_opcode : Kind → ℕ
kind_opcode textual = 0x1
kind_opcode binary = 0x2

-- Continuation frames, the last with FIN.
abbrev pub fragment_frames : List Fragment → List WsFrame
fragment_frames [] = []
fragment_frames (f ∷ fs) =
    map control_frame f.before
    ++ record { opcode = 0x0; fin = is_empty fs; payload = f.slice } ∷ fragment_frames fs

abbrev pub exchange_frames : Exchange → List WsFrame
exchange_frames (control c) = control_frame c ∷ []
exchange_frames (say k first fs) =
    record { opcode = kind_opcode k; fin = is_empty fs; payload = first } ∷ fragment_frames fs

abbrev pub conversation_frames : List Exchange → List WsFrame
conversation_frames [] = []
conversation_frames (x ∷ xs) = exchange_frames x ++ conversation_frames xs

-- The payload of a message is that of its fragments, joined.
abbrev pub joined : Bytes → List Fragment → Bytes
joined first [] = first
joined first (f ∷ fs) = joined (first ++ f.slice) fs

abbrev pub message_event : ℕ → Kind → Bytes → Event
message_event num textual m = record {
  num = num;
  kind = text;
  payload = m ++ 0 ∷ [];
  len = length m;
}
message_event num binary m = record { num = num; kind = bin; payload = m; len = length m }

-- A ping of less than 126 bytes is answered with its own payload.
abbrev pub answer : Control → List Bytes
answer (ping p) = to_list (pong_frame p)
answer (pong p) = []

abbrev pub answers : List Control → List Bytes
answers [] = []
answers (c ∷ cs) = answer c ++ answers cs

abbrev pub fragment_answers : List Fragment → List Bytes
fragment_answers [] = []
fragment_answers (f ∷ fs) = answers f.before ++ fragment_answers fs

abbrev pub conversation_output : ℕ → List Exchange → Output
conversation_output num [] = nothing
conversation_output num (control c ∷ xs) = after [] (answer c) (conversation_output num xs)
conversation_output num (say k first fs ∷ xs) =
    after (message_event num k (joined first fs) ∷ []) (fragment_answers fs)
      (conversation_output num xs)

-- No message is longer than the server takes.
abbrev pub Fits : Exchange → Type 0
Fits (control c) = Unit {0}
Fits (say k first fs) = length (joined first fs) ≤ max_ws_payload
