-- ===== src/FileTransfer/Path/Normal.antt =====
-- What `normalizePath` of src/CrossPointWebServer.cpp makes of a path.
use crosspoint_simulator.Prelude.{
  ℕ, ◌≡◌, ◌∙◌, refl, ap, sym, Bool, true, false, List, [], ◌∷◌, ◌++◌, arith, ◌==◌, if◌then◌else◌,
  length, any, All, Bytes, bytes_eq, subst, Bool-cases, inl, inr, if-cases, ap₂,
}
use crosspoint_simulator.FileTransfer.Decode.{url_decode, pieces, before}
use crosspoint_simulator.FileTransfer.Path.{
  slash, rooted, is_dotdot, pop_slash, trim_slash, finish, normalize_path,
}
use crosspoint_simulator.FileTransfer.Path.Squeezed.{squeeze, collapse-squeeze}
use crosspoint_simulator.FileTransfer.Path.Segments.{
  NoSlash, led, path_text, nonempty, segments, pieces-led, led-pieces, All-NoSlash-pieces,
}

-- The empty segments but for a last one.
abbrev compact : List Bytes → List Bytes
compact [] = []
compact ([] ∷ []) = [] ∷ []
compact ([] ∷ t ∷ ss) = compact (t ∷ ss)
compact ((c ∷ s) ∷ ss) = (c ∷ s) ∷ compact ss

squeeze-NoSlash : (s rest : Bytes) → NoSlash s → squeeze false (s ++ rest) ≡ s ++ squeeze false rest
unfolding squeeze
squeeze-NoSlash [] rest h = refl
squeeze-NoSlash (c ∷ s) rest h = rw (h.0) (ap (◌∷◌ c) (squeeze-NoSlash s rest h.1))

squeeze-led : (ss : List Bytes) → All NoSlash ss → squeeze false (led ss) ≡ led (compact ss)
unfolding squeeze
squeeze-led [] h = refl
squeeze-led ([] ∷ []) h = refl
squeeze-led ([] ∷ t ∷ ss) h = squeeze-led (t ∷ ss) h.1
squeeze-led ((c ∷ s) ∷ ss) (h, hs) = rw (h.0) (
    ap (λ (u : Bytes). slash ∷ c ∷ u)
      (squeeze-NoSlash s (led ss) h.1 ∙ ap (λ (u : Bytes). s ++ u) (squeeze-led ss hs)))

All-NoSlash-compact : (ss : List Bytes) → All NoSlash ss → All NoSlash (compact ss)
All-NoSlash-compact [] h = tt
All-NoSlash-compact ([] ∷ []) h = h
All-NoSlash-compact ([] ∷ t ∷ ss) h = All-NoSlash-compact (t ∷ ss) h.1
All-NoSlash-compact ((c ∷ s) ∷ ss) h = (h.0, All-NoSlash-compact ss h.1)

any-compact : (ss : List Bytes) → any is_dotdot (compact ss) ≡ any is_dotdot (nonempty ss)
unfolding bytes_eq
any-compact [] = refl
any-compact ([] ∷ []) = refl
any-compact ([] ∷ t ∷ ss) = any-compact (t ∷ ss)
any-compact ((c ∷ s) ∷ ss) =
    ap (λ b. elim (is_dotdot (c ∷ s)) [ true ↦ true | false ↦ b ]) (any-compact ss)

pop_slash-NoSlash : (xs zs : Bytes) → NoSlash xs → pop_slash (xs ++ zs) ≡ xs ++ pop_slash zs
unfolding pop_slash
pop_slash-NoSlash [] zs h = refl
pop_slash-NoSlash (x ∷ []) [] h = rw (h.0) refl
pop_slash-NoSlash (x ∷ []) (z ∷ zs) h = refl
pop_slash-NoSlash (x ∷ y ∷ xs) zs h = ap (◌∷◌ x) (pop_slash-NoSlash (y ∷ xs) zs h.1)

pop_slash-led :
    (ss : List Bytes) → All NoSlash ss → pop_slash (led (compact ss)) ≡ led (nonempty ss)
unfolding pop_slash
pop_slash-led [] h = refl
pop_slash-led ([] ∷ []) h = refl
pop_slash-led ([] ∷ t ∷ ss) h = pop_slash-led (t ∷ ss) h.1
pop_slash-led ((c ∷ s) ∷ ss) h =
    ap (λ (u : Bytes). slash ∷ u)
      (pop_slash-NoSlash (c ∷ s) (led (compact ss)) h.0
        ∙ ap (λ (u : Bytes). c ∷ s ++ u) (pop_slash-led ss h.1))

trim_slash-led :
    (s : Bytes) (ss : List Bytes)
    → All NoSlash (s ∷ ss)
    → trim_slash (led (compact (s ∷ ss))) ≡ path_text (nonempty (s ∷ ss))
unfolding trim_slash
trim_slash-led [] [] h = refl
trim_slash-led [] (t ∷ ss) h = trim_slash-led t ss h.1
trim_slash-led (c ∷ s) ss h = pop_slash-led ((c ∷ s) ∷ ss) h

-- A path that is refused is the empty string.
abbrev pub unless_dotdot : List Bytes → Bytes
unless_dotdot ss = if any is_dotdot ss then [] else path_text ss

finish-led :
    (s : Bytes) (ss : List Bytes)
    → All NoSlash (s ∷ ss)
    → finish (led (compact (s ∷ ss))) ≡ unless_dotdot (nonempty (s ∷ ss))
unfolding finish bytes_eq
finish-led s ss h =
    let ts = compact (s ∷ ss) in
    ap₂ (λ (b : Bool) (text : Bytes). if b then [] else text)
      (ap (any is_dotdot) (pieces-led ts (All-NoSlash-compact (s ∷ ss) h)) ∙ any-compact (s ∷ ss))
      (trim_slash-led s ss h)

before-cons : (c : ℕ) (ss : List Bytes) → (s : Bytes) × (ts : List Bytes) × (before c ss ≡ s ∷ ts)
before-cons c [] = (c ∷ [], [], refl)
before-cons c (s ∷ ss) = (c ∷ s, ss, refl)

pieces-cons : (b : Bytes) → (s : Bytes) × (ss : List Bytes) × (pieces slash b ≡ s ∷ ss)
unfolding pieces
pieces-cons [] = ([], [], refl)
pieces-cons (c ∷ b) =
    if-cases (λ ps. (s : Bytes) × (ss : List Bytes) × (ps ≡ s ∷ ss)) (c == slash)
      (λ _. ([], pieces slash b, refl)) (λ _. before-cons c (pieces slash b))

-- A rooted path is made of segments, those of the path among empty ones.
abbrev InSegments : Bytes → Type 0
InSegments d =
    (s : Bytes) × (ss : List Bytes) × (rooted d ≡ led (s ∷ ss))
    × All NoSlash (s ∷ ss)
    × (nonempty (s ∷ ss) ≡ segments d)

rooted-body :
    (d b : Bytes) → rooted d ≡ slash ∷ b → nonempty (pieces slash b) ≡ segments d → InSegments d
rooted-body d b h same =
    let (s, ss, e) = pieces-cons b in
    (
      s,
      ss,
      h ∙ sym (led-pieces b) ∙ ap led e,
      subst (All NoSlash) e (All-NoSlash-pieces b),
      ap nonempty (sym e) ∙ same,
    )

rooted-InSegments : (d : Bytes) → InSegments d
unfolding pieces
rooted-InSegments [] = rooted-body [] [] refl refl
rooted-InSegments (c ∷ cs) = elim (Bool-cases (c == slash)) [
  | inl h ↦ rooted-body (c ∷ cs) cs (ground arith) (rw h refl)
  | inr h ↦ rooted-body (c ∷ cs) (c ∷ cs) (rw h refl) refl
]

-- A path is normalised into its segments behind a slash each, or into the root when it has none;
-- with a segment `..` it is refused. The segments are the nonempty pieces between the slashes of the
-- decoded path.
pub normalize_path-segments :
    (path : Bytes) → normalize_path path ≡ unless_dotdot (segments (url_decode path))
unfolding normalize_path
normalize_path-segments path =
    let (s, ss, e, h, same) = rooted-InSegments (url_decode path) in
    let from_root = rooted (url_decode path) in
    ap finish (
      collapse-squeeze (length from_root) from_root (omega arith)
      ∙ ap (squeeze false) e
      ∙ squeeze-led (s ∷ ss) h)
    ∙ finish-led s ss h
    ∙ ap unless_dotdot same
