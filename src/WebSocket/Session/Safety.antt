-- ===== src/WebSocket/Session/Safety.antt =====
-- What holds of the loop whatever bytes the peer sends.
use mathlib.Core.Path.{fun_ext}
use crosspoint_simulator.WebSocket.Frame.Bounds.{Bounded, read_ws_frame-rest, read_ws_frame-end}
use crosspoint_simulator.WebSocket.Socket.{split}
use crosspoint_simulator.Prelude.{
  refl, [], ◌∷◌, suc, zero, ℕ, ◌+◌, ◌<◌, ◌≡◌, ◌≢◌, ◌↔◌, ◌⊎◌, true, false, arith, length, ◌≤◌, Bytes,
  All, All-append, suc, length-append, Option-cases, inl, zero, inr, ap,
}
use crosspoint_simulator.WebSocket.Frame.{WsFrame, max_ws_payload, read_ws_frame}
use crosspoint_simulator.WebSocket.Session.{
  Assembly, leave, on_frame, Pass, serve_loop, Output, follow, go, Event,
}

-- Why the server ends a connection by itself.
pub data Ends (a : Assembly) (f : WsFrame) : Type 0 where
  close : f.opcode ≡ 0x8 → Ends a f
  reserved : 0x2 < f.opcode → f.opcode ≢ 0x8 → f.opcode ≢ 0x9 → f.opcode ≢ 0xa → Ends a f
  nested : (f.opcode ≡ 0x1) ⊎ (f.opcode ≡ 0x2) → a.in_message ≡ true → Ends a f
  orphan : f.opcode ≡ 0x0 → a.in_message ≡ false → Ends a f
  too_long :
      f.opcode ≡ 0x0
      → a.in_message ≡ true
      → max_ws_payload < length a.message + length f.payload
      → Ends a f

leave-Ends : (num : ℕ) (a : Assembly) (f : WsFrame) → on_frame num a f ≡ leave → Ends a f
unfolding on_frame
leave-Ends num a f e =
    grind (arith, Ends.close, Ends.reserved, Ends.nested, Ends.orphan, Ends.too_long)

Ends-leave : (num : ℕ) (a : Assembly) (f : WsFrame) → Ends a f → on_frame num a f ≡ leave
unfolding on_frame
Ends-leave num a f (close e) = ground arith
Ends-leave num a f (reserved lo e8 e9 ea) = ground arith
Ends-leave num a f (nested e m) = ground arith
Ends-leave num a f (orphan e m) = ground arith
Ends-leave num a f (too_long e m h) = ground arith

-- The loop is left at a close, at a reserved opcode, at a message inside another, at a
-- continuation of nothing and at a message over the limit, and nowhere else.
on_frame-leave : (num : ℕ) (a : Assembly) (f : WsFrame) → (on_frame num a f ≡ leave) ↔ Ends a f
on_frame-leave num a f = (leave-Ends num a f, Ends-leave num a f)

-- A pass keeps the message and its length within the limit; a frame sent has 127 bytes at most.
abbrev KeepsLimit : Pass → Type 0
KeepsLimit leave = Unit {0}
KeepsLimit (go a es bs) =
    (length a.message ≤ max_ws_payload)
    × All (λ (e : Event). e.len ≤ max_ws_payload) es
    × All (λ b. length b ≤ 127) bs

on_frame-KeepsLimit :
    (num : ℕ) (a : Assembly) (f : WsFrame)
    → length a.message ≤ max_ws_payload
    → Bounded f
    → KeepsLimit (on_frame num a f)
unfolding on_frame
on_frame-KeepsLimit num a f h b = ground (arith, length-append a.message f.payload)

abbrev pub OutputWithinLimit : Output → Type 0
OutputWithinLimit o =
    All (λ (e : Event). e.len ≤ max_ws_payload) o.events × All (λ b. length b ≤ 127) o.sent

follow-WithinLimit :
    (p : Pass) (k : Assembly → Output)
    → KeepsLimit p
    → ((a : Assembly) → length a.message ≤ max_ws_payload → OutputWithinLimit (k a))
    → OutputWithinLimit (follow p k)
follow-WithinLimit leave k h rest = (tt, tt)
follow-WithinLimit (go a es bs) k h rest =
    (All-append _ es (k a).events h.1 (rest a h.0).0, All-append _ bs (k a).sent h.2 (rest a h.0).1)

-- Whatever the peer sends, no event is longer than the limit of a message, and nothing is sent
-- but frames of 127 bytes at most.
pub serve_loop-WithinLimit :
    (passes num : ℕ) (a : Assembly) (bs : Bytes)
    → length a.message ≤ max_ws_payload
    → OutputWithinLimit (serve_loop split passes num a bs)
unfolding serve_loop
serve_loop-WithinLimit zero num a bs h = (tt, tt)
serve_loop-WithinLimit (suc passes) num a bs h = elim (Option-cases (read_ws_frame split bs)) [
  | inl e ↦ rw (e, serve_loop) (tt, tt)
  | inr ((f, bs'), e) ↦
      rw (e, serve_loop)
        (follow-WithinLimit (on_frame num a f) (λ a'. serve_loop split passes num a' bs')
          (on_frame-KeepsLimit num a f h (read_ws_frame-rest bs e).0)
          (λ a' h'. serve_loop-WithinLimit passes num a' bs' h'))
]

-- The loop ends on every finite stream: each pass takes a byte or more, so more passes than the
-- stream has bytes change nothing.
pub serve_loop-ends :
    (p q num : ℕ) (a : Assembly) (bs : Bytes)
    → length bs ≤ p
    → length bs ≤ q
    → serve_loop split p num a bs ≡ serve_loop split q num a bs
unfolding serve_loop
serve_loop-ends zero zero num a bs h k = refl
serve_loop-ends zero (suc q) num a [] h k = rw (read_ws_frame-end, serve_loop)
serve_loop-ends (suc p) zero num a [] h k = rw (read_ws_frame-end, serve_loop)
serve_loop-ends zero (suc q) num a (b ∷ bs) h k = absurd (omega arith)
serve_loop-ends (suc p) zero num a (b ∷ bs) h k = absurd (omega arith)
serve_loop-ends (suc p) (suc q) num a bs h k = elim (Option-cases (read_ws_frame split bs)) [
  | inl e ↦ rw (e, serve_loop)
  | inr ((f, bs'), e) ↦
      rw (e, serve_loop)
        (ap (follow (on_frame num a f)) (
          fun_ext (λ a'.
            serve_loop-ends p q num a' bs' (omega (arith, (read_ws_frame-rest bs e).1))
              (omega (arith, (read_ws_frame-rest bs e).1)))))
]
