-- ===== src/Http/Body.antt =====
-- How the accept worker of src/WebServer.cpp takes in the body of a request: what came with the
-- headers, then what `recv` returns. A raw handler is handed the body in pieces; for the others it
-- is kept.
pub mod Streaming
use crosspoint_simulator.Prelude.{
  ℕ, zero, suc, ◌-◌, Bool, true, false, List, [], ◌∷◌, ◌++◌, flatten, map, length, take, drop,
  is_empty, if◌then◌else◌, Bytes, ◌==◌,
}
use crosspoint_simulator.WebSocket.Socket.{segment, interrupted, failed, Socket}

abbrev pub upload_chunk_size : ℕ
upload_chunk_size = 4096

-- `HTTPRawStatus`, with the bytes that the event carries.
pub data RawEvent : Type 0 where
  raw_start : RawEvent
  raw_write : Bytes → RawEvent
  raw_end : RawEvent
  raw_aborted : RawEvent

-- The loop that hands a buffer to `RAW_WRITE` in pieces of at most 4096 bytes. A round takes a byte
-- or more, so as much fuel as the buffer has bytes is enough.
unfoldable pub chunks : ℕ → Bytes → List Bytes
chunks zero buf = []
chunks (suc fuel) buf =
    let rest = chunks fuel (drop upload_chunk_size buf) in
    if is_empty buf then [] else take upload_chunk_size buf ∷ rest

unfoldable pub writes : Bytes → List RawEvent
unfolding chunks
writes buf = map raw_write (chunks (length buf) buf)

-- The pieces that the `recv` loop takes while `left` bytes of the body are missing, and how many are
-- missing when it ends. An arrival is what one `recv` into the buffer of 8192 bytes returns.
unfoldable pub receive : ℕ → Socket → List Bytes × ℕ
receive zero s = ([], zero)
receive (suc left) [] = ([], suc left)
receive (suc left) (failed ∷ s) = ([], suc left)
receive (suc left) (interrupted ∷ s) = receive (suc left) s
receive (suc left) (segment b bs ∷ s) =
    let rest = receive (suc left - length (b ∷ bs)) s in (take (suc left) (b ∷ bs) ∷ rest.0, rest.1)

pub record Body : Type 0 where
  pub events : List RawEvent
  pub body : Bytes
  pub complete : Bool

abbrev ending : Bool → RawEvent
ending true = raw_end
ending false = raw_aborted

-- `early` are the bytes that came with the headers.
unfoldable pub read_body : Bool → ℕ → Bytes → Socket → Body
unfolding writes receive
read_body raw_handlers body_length early s =
    let first = take body_length early in
    let got = receive (body_length - length first) s in
    let complete = got.1 == 0 in
    if raw_handlers
    then record {
      events = raw_start ∷ (writes first ++ (flatten (map writes got.0) ++ ending complete ∷ []));
      body = [];
      complete = complete;
    }
    else record { events = []; body = first ++ flatten got.0; complete = complete }
