-- ===== src/WebSocket/Clients.antt =====
-- The table of clients and the event queue of `WebSocketsServer::Impl`, in
-- src/WebSocketsServer.cpp, and what `loop`, `sendTXT` and `broadcastTXT` do with them. Each
-- operation runs under its mutex, so it is one step.
pub mod Numbers
pub mod Queue
use crosspoint_simulator.Prelude.{
  ℕ, zero, suc, ◌+◌, ◌%◌, Bool, true, false, List, [], ◌∷◌, ◌++◌, map, Option, none, some,
  if◌then◌else◌, Bytes, Map, lookup, insert, erase,
}
use crosspoint_simulator.WebSocket.Session.{Event}
use crosspoint_simulator.WebSocket.Frame.{text_frame}

-- `nextClient` is a `uint8_t`. The values of the table are file descriptors.
pub record Impl : Type 0 where
  pub clients : Map ℕ
  pub next_client : ℕ
  pub pending_events : List Event

abbrev pub bump : Impl → Impl
bump s = record s { next_client = (s.next_client + 1) % 256 }

abbrev pub claim : Impl → ℕ → ℕ × Impl
claim s fd = (
  s.next_client,
  record s { clients = insert s.next_client fd s.clients; next_client = (s.next_client + 1) % 256 },
)

abbrev is_none {ℓ} : {A : Type ℓ} → Option A → Bool
is_none none = true
is_none (some _) = false

-- `tries` is what is left of the 255 rounds of the loop.
unfoldable pub add_loop : ℕ → Impl → ℕ → ℕ × Impl
add_loop zero s fd = claim s fd
add_loop (suc tries) s fd =
    let next = add_loop tries (bump s) fd in
    if is_none (lookup s.next_client s.clients) then claim s fd else next

unfoldable pub add_client : Impl → ℕ → ℕ × Impl
unfolding add_loop
add_client s fd = add_loop 255 s fd

unfoldable pub remove_client : Impl → ℕ → Impl
remove_client s num = record s { clients = erase num s.clients }

abbrev pub client_fds : Impl → List ℕ
client_fds s = map (λ p. p.1) s.clients

unfoldable pub client_fd : Impl → ℕ → Option ℕ
client_fd s num = lookup num s.clients

unfoldable pub push_event : Impl → Event → Impl
push_event s e = record s { pending_events = s.pending_events ++ e ∷ [] }

unfoldable pub drain_events : Impl → List Event × Impl
drain_events s = (s.pending_events, record s { pending_events = [] })

-- The events that `loop` hands to the callback. With no callback set it leaves the queue alone.
unfoldable pub loop : Bool → Impl → List Event × Impl
unfolding drain_events
loop false s = ([], s)
loop true s = drain_events s

-- The frames that `broadcastTXT` and `sendTXT` send, each with its descriptor.
unfoldable pub broadcast_txt : Impl → Bytes → List (ℕ × Bytes)
broadcast_txt s txt = map (λ fd. (fd, text_frame txt)) (client_fds s)

unfoldable pub send_txt : Impl → ℕ → Bytes → List (ℕ × Bytes)
unfolding client_fd
send_txt s num txt = elim (client_fd s num) [ none ↦ [] | some fd ↦ (fd, text_frame txt) ∷ [] ]

-- What `close` leaves.
unfoldable pub close : Impl → Impl
unfolding drain_events
close s = (drain_events (record s { clients = [] })).1
