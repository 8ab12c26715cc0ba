-- ===== src/FileTransfer/Path/Allowed.antt =====
-- The paths that the checks of src/CrossPointWebServer.cpp let through.
use crosspoint_simulator.Prelude.{
  ℕ, suc, ◌+◌, ◌≡◌, ◌∙◌, refl, ap, sym, subst, Bool, true, false, List, [], ◌∷◌, ◌++◌, append_assoc,
  append-nil, none, some, arith, ◌==◌, length, drop, any, All, All-append, is_empty, Bytes,
  bytes_eq, take-append, Bool-cases, Option-cases, inl, inr, if-cases, bytes_eq_refl, ap₂,
}
use crosspoint_simulator.FileTransfer.Decode.{url_decode, pieces}
use crosspoint_simulator.FileTransfer.Path.{
  slash, root, is_dotdot, normalize_path, is_protected_name, is_protected_part, is_protected_path,
  find_last, basename_of, parent_of, join_path, behind, in_front,
}
use crosspoint_simulator.FileTransfer.Path.Segments.{
  NoSlash, led, path_text, nonempty, segments, pieces-led, All-NoSlash-pieces,
}
use crosspoint_simulator.FileTransfer.Path.Normal.{normalize_path-segments}

-- A segment with one byte or more.
abbrev pub Segment : Bytes → Type 0
Segment s = (is_empty s ≡ false) × NoSlash s

-- A segment that names no protected file.
abbrev pub Allowed : Bytes → Type 0
Allowed s = (is_protected_name s ≡ false) × NoSlash s

-- An absolute path of allowed segments, each behind a slash, or the root.
abbrev pub AllowedPath : Bytes → Type 0
AllowedPath path = (ss : List Bytes) × (path ≡ path_text ss) × All Allowed ss

All-Segment-nonempty : (ss : List Bytes) → All NoSlash ss → All Segment (nonempty ss)
All-Segment-nonempty [] h = tt
All-Segment-nonempty ([] ∷ ss) h = All-Segment-nonempty ss h.1
All-Segment-nonempty ((c ∷ s) ∷ ss) h = ((refl, h.0), All-Segment-nonempty ss h.1)

All-Allowed : (ss : List Bytes) → All Segment ss → any is_protected_part ss ≡ false → All Allowed ss
All-Allowed [] hs h = tt
All-Allowed ([] ∷ ss) hs h = ground (arith, hs.0.0)
All-Allowed ((c ∷ s) ∷ ss) hs h = elim (Bool-cases (is_protected_name (c ∷ s))) [
  | inl e ↦ ground (arith, e)
  | inr e ↦ ((e, hs.0.1), All-Allowed ss hs.1 (ground (arith, e)))
]

NoSlash-All : (ss : List Bytes) → All Segment ss → All NoSlash ss
NoSlash-All [] hs = tt
NoSlash-All (s ∷ ss) hs = (hs.0.1, NoSlash-All ss hs.1)

is_protected_path-path_text :
    (ss : List Bytes) → All Segment ss → is_protected_path (path_text ss) ≡ false → All Allowed ss
unfolding is_protected_path
is_protected_path-path_text [] hs h = tt
is_protected_path-path_text (s ∷ ss) hs h =
    All-Allowed (s ∷ ss) hs
      (ap (any is_protected_part) (sym (pieces-led (s ∷ ss) (NoSlash-All (s ∷ ss) hs))) ∙ h)

absurd {ℓ} : {A : Type ℓ} {b : Bool} → b ≡ true → b ≡ false → A
absurd h k = cc

-- What passes the checks of a route is an allowed path.
pub normalize_path-AllowedPath :
    (path : Bytes)
    → is_empty (normalize_path path) ≡ false
    → is_protected_path (normalize_path path) ≡ false
    → AllowedPath (normalize_path path)
normalize_path-AllowedPath path h k =
    let ss = segments (url_decode path) in
    let e = normalize_path-segments path in
    elim (Bool-cases (any is_dotdot ss)) [
      | inl dotdot ↦ absurd (ap is_empty {x = normalize_path path} {y = []} (e ∙ rw dotdot refl)) h
      | inr plain ↦
          let e' : normalize_path path ≡ path_text ss = e ∙ rw plain refl in
          (
            ss,
            e',
            is_protected_path-path_text ss
                (All-Segment-nonempty (pieces slash (url_decode path))
                  (All-NoSlash-pieces (url_decode path)))
                (ap is_protected_path (sym e') ∙ k),
          )
    ]

pub led-append : (ss ts : List Bytes) → led (ss ++ ts) ≡ led ss ++ led ts
led-append [] ts = refl
led-append (s ∷ ss) ts =
    ap (λ (u : Bytes). slash ∷ u)
      (ap (λ (u : Bytes). s ++ u) (led-append ss ts) ∙ sym (append_assoc s (led ss) (led ts)))

pub join_path-path_text :
    (ss : List Bytes) (name : Bytes)
    → All Allowed ss
    → join_path (path_text ss) name ≡ path_text (ss ++ name ∷ [])
unfolding join_path bytes_eq is_protected_name
join_path-path_text [] name hs = ap (λ (u : Bytes). slash ∷ u) (sym (append-nil name))
join_path-path_text ([] ∷ ss) name hs = ground (arith, hs.0.0)
join_path-path_text ((c ∷ s) ∷ ss) name hs =
    let front = slash ∷ c ∷ s ++ led ss in
    append_assoc front root name
    ∙ ap (λ (u : Bytes). front ++ slash ∷ u) (sym (append-nil name))
    ∙ sym (led-append ((c ∷ s) ∷ ss) (name ∷ []))

pub join_path-AllowedPath :
    (dir name : Bytes) → AllowedPath dir → Allowed name → AllowedPath (join_path dir name)
join_path-AllowedPath dir name (ss, e, hs) h = (
  ss ++ name ∷ [],
  ap (λ d. join_path d name) e ∙ join_path-path_text ss name hs,
  All-append Allowed ss (name ∷ []) hs (h, tt),
)

NoSlash-find_last : (s : Bytes) → NoSlash s → find_last slash s ≡ none
unfolding find_last
NoSlash-find_last [] h = refl
NoSlash-find_last (c ∷ s) h = ground (arith, NoSlash-find_last s h.1)

find_last-append : (u v : Bytes) → NoSlash v → find_last slash (u ++ slash ∷ v) ≡ some (length u)
unfolding find_last
find_last-append [] v h = ground (arith, NoSlash-find_last v h)
find_last-append (c ∷ u) v h = ground (arith, find_last-append u v h)

find_last-NoSlash : (s : Bytes) → find_last slash s ≡ none → NoSlash s
unfolding find_last
find_last-NoSlash [] h = tt
find_last-NoSlash (c ∷ s) h = elim (Option-cases (find_last slash s)) [
  | inl e ↦ (ground arith, find_last-NoSlash s e)
  | inr (i, e) ↦ ground arith
]

drop-suc : (i c : ℕ) (cs : Bytes) → drop (suc i + 1) (c ∷ cs) ≡ drop (i + 1) cs
drop-suc i c cs = ap (λ n. drop n (c ∷ cs)) {x = suc i + 1} {y = suc (i + 1)} (omega arith)

pub basename_of-NoSlash : (path : Bytes) → NoSlash (basename_of path)
unfolding basename_of find_last
basename_of-NoSlash [] = tt
basename_of-NoSlash (c ∷ cs) = elim (Option-cases (find_last slash cs)) [
  | inl e ↦
      rw (e, behind)
        (if-cases (λ o. NoSlash (behind (c ∷ cs) o)) (c == slash) (λ _. find_last-NoSlash cs e)
          (λ h. (h, find_last-NoSlash cs e)))
  | inr (i, e) ↦
      rw (e, behind, drop-suc i c cs) (subst NoSlash (ap (behind cs) e) (basename_of-NoSlash cs))
]

drop-past : (u : Bytes) (c : ℕ) (v : Bytes) → drop (length u + 1) (u ++ c ∷ v) ≡ v
drop-past [] c v = refl
drop-past (x ∷ u) c v = drop-suc (length u) x (u ++ c ∷ v) ∙ drop-past u c v

-- A list that is not empty has a last element.
last_of {ℓ} :
    {A : Type ℓ} (s : A) (ss : List A)
    → (front : List A) × (last : A) × (s ∷ ss ≡ front ++ last ∷ [])
last_of s [] = ([], s, refl)
last_of s (t ∷ ss) = let (front, last, e) = last_of t ss in (s ∷ front, last, ap (◌∷◌ s) e)

led-last :
    (front : List Bytes) (last : Bytes) → led (front ++ last ∷ []) ≡ led front ++ slash ∷ last
led-last front last =
    led-append front (last ∷ []) ∙ ap (λ (u : Bytes). led front ++ slash ∷ u) (append-nil last)

in_front-led :
    (front : List Bytes) (last : Bytes)
    → in_front (led front ++ slash ∷ last) (some (length (led front))) ≡ path_text front
in_front-led [] last = refl
in_front-led (s ∷ ss) last = take-append (led (s ∷ ss)) (slash ∷ last)

pub parent_of-path_text :
    (front : List Bytes) (last : Bytes)
    → NoSlash last
    → parent_of (led (front ++ last ∷ [])) ≡ path_text front
unfolding parent_of
parent_of-path_text front last h =
    let text = led front ++ slash ∷ last in
    ap parent_of (led-last front last)
    ∙ ap (in_front text) (find_last-append (led front) last h)
    ∙ in_front-led front last

pub basename_of-path_text :
    (front : List Bytes) (last : Bytes)
    → NoSlash last
    → basename_of (led (front ++ last ∷ [])) ≡ last
unfolding basename_of
basename_of-path_text front last h =
    let text = led front ++ slash ∷ last in
    ap basename_of (led-last front last)
    ∙ ap (behind text) (find_last-append (led front) last h)
    ∙ drop-past (led front) slash last

All-last :
    (front : List Bytes) (last : Bytes)
    → All Allowed (front ++ last ∷ [])
    → All Allowed front × Allowed last
All-last [] last h = (tt, h.0)
All-last (s ∷ ss) last h = let rest = All-last ss last h.1 in ((h.0, rest.0), rest.1)

path_text-snoc :
    (front : List Bytes) (last : Bytes) → path_text (front ++ last ∷ []) ≡ led (front ++ last ∷ [])
path_text-snoc [] last = refl
path_text-snoc (s ∷ ss) last = refl

-- A path other than the root is its parent joined with its base name, and both are allowed.
pub parent_of-basename_of :
    (path : Bytes)
    → AllowedPath path
    → bytes_eq path root ≡ false
    → AllowedPath (parent_of path)
      × Allowed (basename_of path)
      × (join_path (parent_of path) (basename_of path) ≡ path)
parent_of-basename_of path ([], e, hs) h =
    absurd (ap (λ p. bytes_eq p root) e ∙ bytes_eq_refl root) h
parent_of-basename_of path (s ∷ ss, e, hs) h =
    let (front, last, same) = last_of s ss in
    let (fronts, lasts) = All-last front last (subst (All Allowed) same hs) in
    let e' : path ≡ led (front ++ last ∷ []) = e ∙ ap led same in
    let parent : parent_of path ≡ path_text front =
      ap parent_of e' ∙ parent_of-path_text front last lasts.1 in
    let base : basename_of path ≡ last =
      ap basename_of e' ∙ basename_of-path_text front last lasts.1 in
    (
      (front, parent, fronts),
      subst Allowed (sym base) lasts,
      ap₂ join_path parent base
          ∙ join_path-path_text front last fronts
          ∙ path_text-snoc front last
          ∙ sym e',
    )
