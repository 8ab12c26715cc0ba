-- ===== src/WebSocket/Session/Delivery.antt =====
-- Every message of a conversation is delivered once, whole and in order.
use crosspoint_simulator.WebSocket.Frame.Bounds.{read_ws_frame-end}
use crosspoint_simulator.Prelude.{
  ℕ, zero, suc, ◌+◌, ◌≤◌, ◌<◌, ◌≡◌, refl, sym, ap, ◌∙◌, Option-cases, inl, inr, Bool, true, false,
  List, [], ◌∷◌, ◌++◌, map, Option, none, some, arith, length, is_empty, Bytes, All, append_assoc,
  length-append, ltb-false,
}
use mathlib.Core.Path.{fun_ext}
use crosspoint_simulator.WebSocket.Frame.{WsFrame, max_ws_payload, pong_frame, read_ws_frame}
use crosspoint_simulator.WebSocket.Frame.RoundTrip.{Mask, wire, read_ws_frame-wire}
use crosspoint_simulator.WebSocket.Frame.Refines.{read_ws_frame-seen}
use crosspoint_simulator.WebSocket.Socket.{Socket, split, contents, recv_all}
use crosspoint_simulator.WebSocket.Socket.Reads.{seen, IsSource, recv_all-IsSource}
use crosspoint_simulator.WebSocket.Session.{
  Event, connected, disconnected, Assembly, idle, go, to_list, finish, deliver, on_frame, Output,
  nothing, after, event, follow, serve_loop, serve_client,
}
use crosspoint_simulator.WebSocket.Session.Conversation.{
  Control, ping, pong, Fragment, Kind, textual, binary, Exchange, control, say, control_frame,
  kind_opcode, fragment_frames, exchange_frames, conversation_frames, joined, message_event, answer,
  answers, fragment_answers, conversation_output, Fits,
}

-- The loop over frames that have been read already.
run_frames : ℕ → Assembly → List WsFrame → Output
run_frames num a [] = nothing
run_frames num a (f ∷ fs) = follow (on_frame num a f) (λ a'. run_frames num a' fs)

after-after :
    (es fs : List Event) (bs cs : List Bytes) (o : Output)
    → after es bs (after fs cs o) ≡ after (es ++ fs) (bs ++ cs) o
after-after es fs bs cs o = λ i. record {
  events = sym (append_assoc es fs o.events) i;
  sent = sym (append_assoc bs cs o.sent) i;
}

run_frames-controls :
    (num : ℕ) (a : Assembly) (cs : List Control) (fs : List WsFrame)
    → run_frames num a (map control_frame cs ++ fs) ≡ after [] (answers cs) (run_frames num a fs)
unfolding run_frames on_frame
run_frames-controls num a [] fs = refl
run_frames-controls num a (ping p ∷ cs) fs =
    ap (after [] (to_list (pong_frame p))) (run_frames-controls num a cs fs)
    ∙ after-after [] [] (to_list (pong_frame p)) (answers cs) (run_frames num a fs)
run_frames-controls num a (pong p ∷ cs) fs = run_frames-controls num a cs fs

open_message : Kind → Bytes → Assembly
open_message k m = record { message = m; message_opcode = kind_opcode k; in_message = true }

closed : Kind → Assembly
closed k = record { message = []; message_opcode = kind_opcode k; in_message = false }

finish_lem :
    (num : ℕ) (k : Kind) (m : Bytes)
    → deliver num (open_message k m) ≡ go (closed k) (message_event num k m ∷ []) []
unfolding deliver open_message closed
finish_lem num textual m = refl
finish_lem num binary m = refl

length-joined : (m : Bytes) (fs : List Fragment) → length m ≤ length (joined m fs)
length-joined m [] = omega arith
length-joined m (f ∷ fs) = omega (arith, length-joined (m ++ f.slice) fs, length-append m f.slice)

-- A continuation that fits is appended.
continue_lem :
    (num : ℕ) (k : Kind) (m slice : Bytes) (fin : Bool)
    → length m + length slice ≤ max_ws_payload
    → on_frame num (open_message k m) (record { opcode = 0x0; fin = fin; payload = slice })
      ≡ finish num fin (open_message k (m ++ slice))
unfolding on_frame open_message
continue_lem num k m slice fin h = rw (ltb-false max_ws_payload (length m + length slice) h)

run_frames-continued :
    (num : ℕ) (k : Kind) (m : Bytes) (f : Fragment) (fs : List Fragment) (rest : List WsFrame)
    → length (joined m (f ∷ fs)) ≤ max_ws_payload
    → run_frames num
        (open_message k m)
        (record { opcode = 0x0; fin = is_empty fs; payload = f.slice } ∷ fragment_frames fs ++ rest)
      ≡ after
          (message_event num k (joined m (f ∷ fs)) ∷ [])
          (fragment_answers fs)
          (run_frames num (closed k) rest)
unfolding run_frames finish
run_frames-continued num k m f [] rest h =
    rw
      (
        continue_lem num k m f.slice true (omega (arith, length-append m f.slice)),
        run_frames,
        finish_lem num k (m ++ f.slice),
      )
      refl
run_frames-continued num k m f (g ∷ gs) rest h =
    rw
      (
        continue_lem num k m f.slice false
            (omega (arith, length-joined (m ++ f.slice) (g ∷ gs), length-append m f.slice)),
        run_frames,
      )
      (ap (run_frames num (open_message k (m ++ f.slice)))
          (append_assoc (map control_frame g.before) (_ ∷ fragment_frames gs) rest)
        ∙ run_frames-controls num (open_message k (m ++ f.slice)) g.before _
        ∙ ap (after [] (answers g.before)) (run_frames-continued num k (m ++ f.slice) g gs rest h)
        ∙ after-after [] (message_event num k (joined m (f ∷ g ∷ gs)) ∷ []) (answers g.before)
            (fragment_answers gs) (run_frames num (closed k) rest))

start_lem :
    (num : ℕ) (k : Kind) (a : Assembly) (m : Bytes) (fin : Bool)
    → a.in_message ≡ false
    → on_frame num a (record { opcode = kind_opcode k; fin = fin; payload = m })
      ≡ finish num fin (open_message k m)
unfolding on_frame open_message
start_lem num textual a m fin e = ground arith
start_lem num binary a m fin e = ground arith

run_frames-say :
    (num : ℕ) (k : Kind) (a : Assembly) (m : Bytes) (fs : List Fragment) (rest : List WsFrame)
    → a.in_message ≡ false
    → length (joined m fs) ≤ max_ws_payload
    → run_frames num a (exchange_frames (say k m fs) ++ rest)
      ≡ after
          (message_event num k (joined m fs) ∷ [])
          (fragment_answers fs)
          (run_frames num (closed k) rest)
unfolding run_frames finish
run_frames-say num k a m [] rest e h =
    rw (start_lem num k a m true e, run_frames, finish_lem num k m)
run_frames-say num k a m (f ∷ fs) rest e h =
    rw (start_lem num k a m false e, run_frames)
      (ap (run_frames num (open_message k m))
          (append_assoc (map control_frame f.before) (_ ∷ fragment_frames fs) rest)
        ∙ run_frames-controls num (open_message k m) f.before _
        ∙ ap (after [] (answers f.before)) (run_frames-continued num k m f fs rest h)
        ∙ after-after [] (message_event num k (joined m (f ∷ fs)) ∷ []) (answers f.before)
            (fragment_answers fs) (run_frames num (closed k) rest))

control_lem :
    (num : ℕ) (a : Assembly) (c : Control) → on_frame num a (control_frame c) ≡ go a [] (answer c)
unfolding on_frame
control_lem num a (ping p) = refl
control_lem num a (pong p) = refl

run_frames-conversation :
    (num : ℕ) (a : Assembly) (xs : List Exchange)
    → a.in_message ≡ false
    → All Fits xs
    → run_frames num a (conversation_frames xs) ≡ conversation_output num xs
unfolding run_frames closed
run_frames-conversation num a [] e h = refl
run_frames-conversation num a (control c ∷ xs) e h =
    rw (control_lem num a c) (ap (after [] (answer c)) (run_frames-conversation num a xs e h.1))
run_frames-conversation num a (say k m fs ∷ xs) e h =
    run_frames-say num k a m fs (conversation_frames xs) e h.0
    ∙ ap (after (message_event num k (joined m fs) ∷ []) (fragment_answers fs))
        (run_frames-conversation num (closed k) xs refl h.1)

-- Frames as a peer writes them, each with a mask of its own.
abbrev pub wires : List (Mask × WsFrame) → Bytes
wires [] = []
wires ((m, f) ∷ ps) = wire m f ++ wires ps

abbrev pub frames : List (Mask × WsFrame) → List WsFrame
frames = map (λ p. p.1)

abbrev pub Readable : WsFrame → Type 0
Readable f = (f.opcode < 16) × (length f.payload ≤ max_ws_payload)

serve_loop-frames :
    (passes num : ℕ) (a : Assembly) (ps : List (Mask × WsFrame))
    → length ps ≤ passes
    → All Readable (frames ps)
    → serve_loop split passes num a (wires ps) ≡ run_frames num a (frames ps)
unfolding serve_loop run_frames
serve_loop-frames zero num a [] h r = refl
serve_loop-frames (suc passes) num a [] h r = rw (read_ws_frame-end, serve_loop)
serve_loop-frames zero num a ((m, f) ∷ ps) h r = absurd (omega arith)
serve_loop-frames (suc passes) num a ((m, f) ∷ ps) h r =
    rw (read_ws_frame-wire m f (wires ps) r.0.0 r.0.1, serve_loop)
      (ap (follow (on_frame num a f))
        (fun_ext (λ a'. serve_loop-frames passes num a' ps (omega arith) r.1)))

seen-eq-none :
    {S A : Type 0} (view : S → Bytes) (r : Option (A × S)) → seen view r ≡ none → r ≡ none
seen-eq-none view none e = refl
seen-eq-none view (some x) e = cc

seen-eq-some :
    {S A : Type 0} (view : S → Bytes) (r : Option (A × S)) (a : A) (bs : Bytes)
    → seen view r ≡ some (a, bs)
    → (s : S) × (r ≡ some (a, s)) × (view s ≡ bs)
seen-eq-some view none a bs e = cc
seen-eq-some view (some (a', s)) a bs e = (s, cc, cc)

module _ {S : Type 0} (recv : S → ℕ → Option (Bytes × S)) (view : S → Bytes)
    (src : IsSource recv view) where
  serve_loop-view :
      (passes num : ℕ) (a : Assembly) (s : S)
      → serve_loop recv passes num a s ≡ serve_loop split passes num a (view s)
  unfolding serve_loop
  serve_loop-view zero num a s = refl
  serve_loop-view (suc passes) num a s = elim (Option-cases (read_ws_frame split (view s))) [
    | inl e ↦ rw (seen-eq-none view _ (read_ws_frame-seen recv view src s ∙ e), e, serve_loop)
    | inr ((f, bs), e) ↦
        let (s', e', v) = seen-eq-some view _ f bs (read_ws_frame-seen recv view src s ∙ e) in
        rw (e', e, serve_loop)
          (ap (follow (on_frame num a f)) (
            fun_ext
              (λ a'. serve_loop-view passes num a' s' ∙ ap (serve_loop split passes num a') v)))
  ]

-- A peer that holds a conversation by RFC 6455 over a socket, however the network cuts its bytes,
-- and then closes: the firmware gets the event of the connection, one event for each message with
-- all of its fragments, in order, and the event of the end; each short ping is answered.
pub serve_client-conversation :
    (passes num : ℕ) (s : Socket) (ps : List (Mask × WsFrame)) (xs : List Exchange)
    → contents s ≡ wires ps
    → frames ps ≡ conversation_frames xs
    → All Readable (frames ps)
    → All Fits xs
    → length ps ≤ passes
    → ((serve_client recv_all passes num s).events
        ≡ event num connected ∷ (conversation_output num xs).events ++ event num disconnected ∷ [])
      × ((serve_client recv_all passes num s).sent ≡ (conversation_output num xs).sent)
unfolding serve_client
serve_client-conversation passes num s ps xs c e r f h =
    let out : serve_loop recv_all passes num idle s ≡ conversation_output num xs =
      serve_loop-view recv_all contents recv_all-IsSource passes num idle s
      ∙ ap (serve_loop split passes num idle) c
      ∙ serve_loop-frames passes num idle ps h r
      ∙ ap (run_frames num idle) e
      ∙ run_frames-conversation num idle xs refl f in
    (
      ap (λ (o : Output). event num connected ∷ o.events ++ event num disconnected ∷ []) out,
      ap (λ (o : Output). o.sent) out,
    )
