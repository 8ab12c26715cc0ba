-- ===== src/FileTransfer/Path/Segments.antt =====
-- Paths of src/CrossPointWebServer.cpp as lists of segments.
use crosspoint_simulator.Prelude.{
  ℕ, ◌≡◌, ◌∙◌, refl, ap, false, List, [], ◌∷◌, ◌++◌, arith, ◌==◌, if◌then◌else◌, All, is_empty,
  Bytes, append-nil, if-cases,
}
use crosspoint_simulator.FileTransfer.Decode.{pieces, before}
use crosspoint_simulator.FileTransfer.Path.{slash, root}

abbrev pub NoSlash : Bytes → Type 0
NoSlash = All (λ c. (c == slash) ≡ false)

-- Each segment behind a slash.
abbrev pub led : List Bytes → Bytes
led [] = []
led (s ∷ ss) = slash ∷ s ++ led ss

-- The text of a path: a slash for the root.
abbrev pub path_text : List Bytes → Bytes
path_text [] = root
path_text (s ∷ ss) = led (s ∷ ss)

abbrev pub nonempty : List Bytes → List Bytes
nonempty [] = []
nonempty (s ∷ ss) = if is_empty s then nonempty ss else s ∷ nonempty ss

-- The segments of a text: what stands between the slashes, without the empty ones.
abbrev pub segments : Bytes → List Bytes
segments path = nonempty (pieces slash path)

pieces-NoSlash :
    (s rest : Bytes) → NoSlash s → pieces slash (s ++ slash ∷ rest) ≡ s ∷ pieces slash rest
unfolding pieces
pieces-NoSlash [] rest h = refl
pieces-NoSlash (c ∷ s) rest h = rw (h.0, pieces-NoSlash s rest h.1) refl

pieces-last : (s : Bytes) → NoSlash s → pieces slash s ≡ s ∷ []
unfolding pieces
pieces-last [] h = refl
pieces-last (c ∷ s) h = rw (h.0, pieces-last s h.1) refl

pieces-segments :
    (s : Bytes) (ss : List Bytes) → All NoSlash (s ∷ ss) → pieces slash (s ++ led ss) ≡ s ∷ ss
pieces-segments s [] (h, _) = rw (append-nil s) (pieces-last s h)
pieces-segments s (t ∷ ss) (h, hs) =
    pieces-NoSlash s (t ++ led ss) h ∙ ap (◌∷◌ s) (pieces-segments t ss hs)

-- A text of segments that each stand behind a slash is cut into those segments.
pub pieces-led : (ss : List Bytes) → All NoSlash ss → pieces slash (led ss) ≡ [] ∷ ss
unfolding pieces
pieces-led [] h = refl
pieces-led (s ∷ ss) h = ap (◌∷◌ []) (pieces-segments s ss h)

led-before :
    (c : ℕ) (b : Bytes) (ss : List Bytes) → led ss ≡ slash ∷ b → led (before c ss) ≡ slash ∷ c ∷ b
led-before c b [] h = cc
led-before c b (s ∷ ss) h = ground arith

pub led-pieces : (b : Bytes) → led (pieces slash b) ≡ slash ∷ b
unfolding pieces
led-pieces [] = refl
led-pieces (c ∷ b) =
    if-cases (λ ss. led ss ≡ slash ∷ c ∷ b) (c == slash) (λ h. ground (arith, led-pieces b))
      (λ _. led-before c b (pieces slash b) (led-pieces b))

All-NoSlash-before :
    (c : ℕ) (ss : List Bytes) → (c == slash) ≡ false → All NoSlash ss → All NoSlash (before c ss)
All-NoSlash-before c [] h hs = ((h, tt), tt)
All-NoSlash-before c (s ∷ ss) h hs = ((h, hs.0), hs.1)

pub All-NoSlash-pieces : (b : Bytes) → All NoSlash (pieces slash b)
unfolding pieces
All-NoSlash-pieces [] = (tt, tt)
All-NoSlash-pieces (c ∷ b) =
    if-cases (λ ss. All NoSlash ss) (c == slash) (λ h. (tt, All-NoSlash-pieces b))
      (λ h. All-NoSlash-before c (pieces slash b) h (All-NoSlash-pieces b))
