-- ===== src/WebSocket/Handshake/Request.antt =====
-- The loop that reads the request ends.
use crosspoint_simulator.Prelude.{
  ℕ, zero, suc, ◌+◌, ◌≤◌, ◌≡◌, refl, [], ◌∷◌, ◌++◌, arith, ltb, length, take, drop, Bytes,
  Bool-cases, inl, inr, length-append,
}
use crosspoint_simulator.WebSocket.Socket.{segment, interrupted, failed, Socket, put_back}
use crosspoint_simulator.WebSocket.Handshake.{recv_some, max_request, read_request}

-- Every read brings a byte, and the request may have 32768, so more fuel changes nothing.
read_request-ends :
    (p q : ℕ) (raw : Bytes) (s : Socket)
    → max_request + 1 ≤ p + length raw
    → max_request + 1 ≤ q + length raw
    → length raw ≤ max_request
    → read_request p raw s ≡ read_request q raw s
unfolding read_request recv_some
read_request-ends zero q raw s h k l = absurd (omega arith)
read_request-ends (suc p) zero raw s h k l = absurd (omega arith)
read_request-ends (suc p) (suc q) raw (segment b bs ∷ s) h k l =
    let raw' = raw ++ b ∷ take 2047 bs in
    let size = length-append raw (b ∷ take 2047 bs) in
    elim (Bool-cases (ltb max_request (length raw'))) [
      | inl large ↦ rw large
      | inr fits ↦
          let rest =
            read_request-ends p q raw' (put_back (drop 2047 bs) s) (omega (arith, size))
              (omega (arith, size)) (ground arith) in
          rw rest
    ]
read_request-ends (suc p) (suc q) raw [] h k l = refl
read_request-ends (suc p) (suc q) raw (interrupted ∷ s) h k l = refl
read_request-ends (suc p) (suc q) raw (failed ∷ s) h k l = refl
