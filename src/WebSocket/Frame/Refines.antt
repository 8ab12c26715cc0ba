-- ===== src/WebSocket/Frame/Refines.antt =====
-- The frame reader sees only the bytes of its source.
use crosspoint_simulator.Prelude.{
  ℕ, zero, suc, ◌%◌, ◌/◌, get_or, ◌≡◌, refl, Bool, true, false, [], ◌++◌, Option, ltb, ◌==◌, length,
  Bytes, Bool-cases, inl, inr,
}
use crosspoint_simulator.WebSocket.Socket.{split}
use crosspoint_simulator.WebSocket.Socket.Reads.{seen, seen-bind, IsSource}
use crosspoint_simulator.WebSocket.Frame.{
  max_ws_payload, read_length, read_payload, read_mask, read_body, read_rest, read_ws_frame,
}

module _ {S : Type 0} (recv : S → ℕ → Option (Bytes × S)) (view : S → Bytes)
    (src : IsSource recv view) where
  read_length-seen :
      (len : ℕ) (s : S) → seen view (read_length recv len s) ≡ read_length split len (view s)
  unfolding read_length
  read_length-seen len s = elim (Bool-cases (len == 126)) [
    | inl two ↦ rw two (seen-bind view _ _ _ _ (src.reads s 2) (λ a t. refl))
    | inr other ↦ elim (Bool-cases (len == 127)) [
      | inl eight ↦ rw (other, eight) (seen-bind view _ _ _ _ (src.reads s 8) (λ a t. refl))
      | inr short ↦ rw (other, short)
    ]
  ]

  read_payload-seen :
      (fuel len : ℕ) (payload : Bytes) (s : S)
      → seen view (read_payload recv fuel len payload s)
        ≡ read_payload split fuel len payload (view s)
  unfolding read_payload
  read_payload-seen zero len payload s = refl
  read_payload-seen (suc fuel) len payload s = elim (Bool-cases (ltb (length payload) len)) [
    | inl more ↦ rw more (
        seen-bind view _ _ _ _ (src.reads s _)
          (λ chunk t. read_payload-seen fuel len (payload ++ chunk) t))
    | inr done ↦ rw done
  ]

  read_mask-seen :
      (masked : Bool) (s : S)
      → seen view (read_mask recv masked s) ≡ read_mask split masked (view s)
  unfolding read_mask
  read_mask-seen true s = src.reads s 4
  read_mask-seen false s = refl

  read_body-seen :
      (opcode : ℕ) (fin masked : Bool) (len : ℕ) (s : S)
      → seen view (read_body recv opcode fin masked len s)
        ≡ read_body split opcode fin masked len (view s)
  unfolding read_body
  read_body-seen opcode fin masked len s = elim (Bool-cases (ltb max_ws_payload len)) [
    | inl large ↦ rw large
    | inr fits ↦ rw fits (
        seen-bind view _ _ _ _ (read_mask-seen masked s)
          (λ mask t. seen-bind view _ _ _ _ (read_payload-seen (suc len) len [] t) (λ p u. refl)))
  ]

  read_rest-seen :
      (first second : ℕ) (s : S)
      → seen view (read_rest recv first second s) ≡ read_rest split first second (view s)
  unfolding read_rest
  read_rest-seen first second s =
      seen-bind view (read_length recv (second % 128) s) (read_length split (second % 128) (view s))
        (λ r. read_body recv (first % 16) (first / 128 % 2 == 1) (second / 128 % 2 == 1) r.0 r.1)
        (λ r. read_body split (first % 16) (first / 128 % 2 == 1) (second / 128 % 2 == 1) r.0 r.1)
        (read_length-seen (second % 128) s) (λ len t. read_body-seen _ _ _ len t)

  -- On any source the reader returns the frame, and leaves the bytes, that it would on the
  -- plain sequence of the source's bytes.
  pub read_ws_frame-seen : (s : S) → seen view (read_ws_frame recv s) ≡ read_ws_frame split (view s)
  unfolding read_ws_frame
  read_ws_frame-seen s =
      seen-bind view _ _ _ _ (src.reads s 2)
        (λ header t. read_rest-seen (get_or header 0 0) (get_or header 1 0) t)
