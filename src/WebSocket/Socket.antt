-- ===== src/WebSocket/Socket.antt =====
-- `recvAll` of src/WebSocketsServer.cpp over what successive `recv` calls find.
pub mod Reads
use crosspoint_simulator.Prelude.{
  ℕ, zero, suc, ◌+◌, ◌-◌, ◌≤◌, ◌<◌, ◌≡◌, refl, ap, List, [], ◌∷◌, ◌++◌, Option, none, some, arith,
  leb, if◌then◌else◌, length, take, drop, Bytes, ◌>>=◌, append-nil,
}

-- What a `recv` meets: a segment of one byte or more, a signal (EINTR), or another error or a
-- timeout. The end of the list is the peer's close, at which `recv` returns 0.
pub data Arrival : Type 0 where
  segment : ℕ → Bytes → Arrival
  interrupted failed : Arrival

abbrev pub Socket : Type 0
Socket = List Arrival

unfoldable pub put_back : Bytes → Socket → Socket
put_back [] s = s
put_back (b ∷ bs) s = segment b bs ∷ s

abbrev after_bytes : Bytes → Option (Bytes × Socket) → Option (Bytes × Socket)
after_bytes xs r = do (ys, s) ← r; some (xs ++ ys, s)

-- `recv` hands over no more than is asked for; the rest of the segment stays for the next call.
unfoldable pub recv_all : Socket → ℕ → Option (Bytes × Socket)
unfolding put_back
recv_all s zero = some ([], s)
recv_all [] (suc n) = none
recv_all (interrupted ∷ s) (suc n) = recv_all s (suc n)
recv_all (failed ∷ s) (suc n) = none
recv_all (segment b bs ∷ s) (suc n) =
    let more = after_bytes (b ∷ bs) (recv_all s (n - length bs)) in
    if leb n (length bs) then some (b ∷ take n bs, put_back (drop n bs) s) else more

-- The bytes that can still be read from a socket.
unfoldable pub contents : Socket → Bytes
contents [] = []
contents (segment b bs ∷ s) = b ∷ bs ++ contents s
contents (interrupted ∷ s) = contents s
contents (failed ∷ s) = []

-- The same operation on a plain sequence of bytes.
unfoldable pub split : Bytes → ℕ → Option (Bytes × Bytes)
split bs n = if leb n (length bs) then some (take n bs, drop n bs) else none
