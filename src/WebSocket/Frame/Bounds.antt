-- ===== src/WebSocket/Frame/Bounds.antt =====
-- What the frame reader can return: a payload within the limit, and a shorter rest.
use crosspoint_simulator.Prelude.{
  ℕ, zero, ◌+◌, ◌-◌, ◌%◌, ◌≤◌, ◌<◌, ◌≡◌, refl, ap, suc, min, Bool, true, false, [], ◌∷◌, ◌++◌,
  Option, none, some, arith, ltb, length, get_or, Bytes, Bool-cases, inl, inr, bind-eq-some,
  length-append, length-take, length-drop,
}
use crosspoint_simulator.WebSocket.Socket.{split}
use crosspoint_simulator.WebSocket.Frame.{
  WsFrame, max_ws_payload, grow_step, unmask, read_length, read_payload, read_mask, read_body,
  read_rest, read_ws_frame, finish_payload,
}

-- The sizes of what a read of `n` bytes from `bs` returns.
abbrev Splits : ℕ → Bytes → Option (Bytes × Bytes) → Type 0
Splits n bs none = Unit {0}
Splits n bs (some (xs, rest)) = (length xs ≡ n) × (length rest + n ≡ length bs)

split-Splits : (n : ℕ) (bs : Bytes) → Splits n bs (split bs n)
unfolding split
split-Splits n bs = ground (arith, length-take n bs, length-drop n bs)

read_length-rest :
    (c : ℕ) (bs : Bytes) {n : ℕ} {rest : Bytes}
    → read_length split c bs ≡ some (n, rest)
    → length rest ≤ length bs
unfolding read_length
read_length-rest c bs e = ground (arith, split-Splits 2 bs, split-Splits 8 bs)

read_mask-rest :
    (masked : Bool) (bs : Bytes) {mask rest : Bytes}
    → read_mask split masked bs ≡ some (mask, rest)
    → length rest ≤ length bs
unfolding read_mask
read_mask-rest true bs e = ground (arith, split-Splits 4 bs)
read_mask-rest false bs e = ground arith

read_payload-rest :
    (fuel len : ℕ) (got bs : Bytes) {p rest : Bytes}
    → read_payload split fuel len got bs ≡ some (p, rest)
    → length got ≤ len
    → (length p ≡ len) × (length rest ≤ length bs)
unfolding read_payload
read_payload-rest zero len got bs e h = cc
read_payload-rest (suc fuel) len got bs e h = elim (Bool-cases (ltb (length got) len)) [
  | inl more ↦
      let k = min grow_step (len - length got) in
      let ((chunk, bs'), s, later) = bind-eq-some (split bs k) _ (rw more at e) in
      let sized : Splits k bs (some (chunk, bs')) = rw s at (split-Splits k bs) in
      let (same, short) =
        read_payload-rest fuel len (got ++ chunk) bs' later
          (omega (arith, length-append got chunk, sized.0)) in
      (same, omega (arith, short, sized.1))
  | inr done ↦ ground arith
]

length-unmask : (mask : Bytes) (i : ℕ) (p : Bytes) → length (unmask mask i p) ≡ length p
unfolding unmask
length-unmask mask i [] = refl
length-unmask mask i (b ∷ bs) = ap suc (length-unmask mask (i + 1) bs)

length-finish_payload :
    (masked : Bool) (mask p : Bytes) → length (finish_payload masked mask p) ≡ length p
length-finish_payload true mask p = length-unmask mask 0 p
length-finish_payload false mask p = refl

abbrev pub Bounded : WsFrame → Type 0
Bounded f = (f.opcode < 16) × (length f.payload ≤ max_ws_payload)

read_body-rest :
    (opcode : ℕ) (fin masked : Bool) (len : ℕ) (bs : Bytes) {f : WsFrame} {rest : Bytes}
    → read_body split opcode fin masked len bs ≡ some (f, rest)
    → (f.opcode ≡ opcode) × (length f.payload ≤ max_ws_payload) × (length rest ≤ length bs)
unfolding read_body
read_body-rest opcode fin masked len bs e = elim (Bool-cases (ltb max_ws_payload len)) [
  | inl large ↦ absurd (ground arith)
  | inr fits ↦
      let ((mask, bs'), m, e') = bind-eq-some (read_mask split masked bs) _ (rw fits at e) in
      let ((p, bs''), q, e'') = bind-eq-some (read_payload split (suc len) len [] bs') _ e' in
      let (same, short) = read_payload-rest (suc len) len [] bs' q (omega arith) in
      ground
        (arith, e'', same, short, read_mask-rest masked bs m, length-finish_payload masked mask p)
]

-- A frame has an opcode of four bits, a payload within the limit, and takes two bytes at least.
pub read_ws_frame-rest :
    (bs : Bytes) {f : WsFrame} {rest : Bytes}
    → read_ws_frame split bs ≡ some (f, rest)
    → Bounded f × (length rest < length bs)
unfolding read_ws_frame read_rest
read_ws_frame-rest bs e =
    let ((header, bs₁), h, e₁) = bind-eq-some (split bs 2) _ e in
    let sized : Splits 2 bs (some (header, bs₁)) = rw h at (split-Splits 2 bs) in
    let ((len, bs₂), l, e₂) = bind-eq-some (read_length split (get_or header 1 0 % 128) bs₁) _ e₁ in
    let body = read_body-rest _ _ _ len bs₂ e₂ in
    (
      (omega (arith, body.0), body.1),
      omega (arith, sized.1, body.2, read_length-rest (get_or header 1 0 % 128) bs₁ l),
    )

pub read_ws_frame-end : read_ws_frame split [] ≡ none
unfolding read_ws_frame split
read_ws_frame-end = refl
