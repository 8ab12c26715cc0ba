-- ===== src/FileTransfer/Routes/Protected.antt =====
-- Which paths the checks of src/CrossPointWebServer.cpp refuse, by the segments of a path.
use crosspoint_simulator.Prelude.{
  ℕ, ◌+◌, append-nil, take-append, drop-drop, ◌≡◌, ◌∙◌, refl, ap, sym, Bool, true, false, ◌||◌,
  List, [], ◌∷◌, any, All, Option, none, some, Bytes, codes, bytes_eq, is_empty, Bool-cases, inl,
  inr, arith, find, length, ◌++◌, if◌then◌else◌, Free, find-Free, drop-add, drop, drop-append, ◌⊎◌,
}
use crosspoint_simulator.WebSocket.Handshake.{Headers, header}
use crosspoint_simulator.FileTransfer.Decode.{url_decode, pieces}
use crosspoint_simulator.FileTransfer.Path.{
  slash, root, is_dotdot, normalize_path, is_protected_name, is_protected_part, is_protected_path,
}
use crosspoint_simulator.FileTransfer.Path.Segments.{
  NoSlash, path_text, nonempty, segments, pieces-led, All-NoSlash-pieces,
}
use crosspoint_simulator.FileTransfer.Path.Normal.{normalize_path-segments}
use crosspoint_simulator.FileTransfer.Browse.{is_refused, is_refused_entry}
use crosspoint_simulator.FileTransfer.Change.{
  destination, destination_path, without_host, without_query, from_slash,
}

-- A name that is not to be reached: one that begins with a dot, `..` among them, or one of two folders.
pub data Protected : Bytes → Type 0 where
  dotted : (name : Bytes) → Protected (b'.' ∷ name)
  system_folder : Protected (codes "System Volume Information")
  cache_folder : Protected (codes "XTCache")

-- One of the segments is such a name.
abbrev pub Some : List Bytes → Type 0
Some [] = ⊥
Some (s ∷ ss) = Protected s ⊎ Some ss

-- A path of a request that is decoded with such a segment, or without any.
abbrev pub Hidden : Bytes → Type 0
Hidden path = Some (segments (url_decode path))

abbrev pub HiddenEntry : Bytes → Type 0
HiddenEntry path = Hidden path ⊎ (segments (url_decode path) ≡ [])

Protected-part : (s : Bytes) → Protected s → is_protected_part s ≡ true
unfolding is_protected_name bytes_eq
Protected-part s (dotted name) = refl
Protected-part s system_folder = refl
Protected-part s cache_folder = refl

Some-any : (ss : List Bytes) → Some ss → any is_protected_part ss ≡ true
Some-any [] h = absurd h
Some-any (s ∷ ss) (inl p) = ground (arith, Protected-part s p)
Some-any (s ∷ ss) (inr p) = ground (arith, Some-any ss p)

any-nonempty : (ss : List Bytes) → any is_protected_part (nonempty ss) ≡ any is_protected_part ss
any-nonempty [] = refl
any-nonempty ([] ∷ ss) = any-nonempty ss
any-nonempty ((c ∷ s) ∷ ss) =
    ap (λ b. elim (is_protected_part (c ∷ s)) [ true ↦ true | false ↦ b ]) (any-nonempty ss)

All-NoSlash-nonempty : (ss : List Bytes) → All NoSlash ss → All NoSlash (nonempty ss)
All-NoSlash-nonempty [] h = tt
All-NoSlash-nonempty ([] ∷ ss) h = All-NoSlash-nonempty ss h.1
All-NoSlash-nonempty ((c ∷ s) ∷ ss) h = (h.0, All-NoSlash-nonempty ss h.1)

refused_text : (ss : List Bytes) → All NoSlash ss → Some ss → is_refused (path_text ss) ≡ true
unfolding is_refused is_protected_path
refused_text [] h p = absurd p
refused_text (s ∷ ss) h p = ap (any is_protected_part) (pieces-led (s ∷ ss) h) ∙ Some-any (s ∷ ss) p

-- Decoded and normalised, such a path is refused.
pub Hidden-refused : (path : Bytes) → Hidden path → is_refused (normalize_path path) ≡ true
unfolding is_refused
Hidden-refused path h =
    let ss = segments (url_decode path) in
    let e = normalize_path-segments path in
    elim (Bool-cases (any is_dotdot ss)) [
      | inl d ↦ ap is_refused {x = normalize_path path} {y = []} (e ∙ rw d refl)
      | inr d ↦
          ap is_refused {x = normalize_path path} {y = path_text ss} (e ∙ rw d refl)
          ∙ refused_text ss
              (All-NoSlash-nonempty (pieces slash (url_decode path))
                (All-NoSlash-pieces (url_decode path)))
              h
    ]

pub or-true : (a b : Bool) → b ≡ true → (a || b) ≡ true
or-true a b h = ground (arith, h)

pub HiddenEntry-refused :
    (path : Bytes) → HiddenEntry path → is_refused_entry (normalize_path path) ≡ true
unfolding is_refused_entry bytes_eq
HiddenEntry-refused path (inl h) = or-true _ _ (Hidden-refused path h)
HiddenEntry-refused path (inr h) = ap is_refused_entry {x = normalize_path path} {y = root} (
    normalize_path-segments path
    ∙ ap (λ (ss : List Bytes). if any is_dotdot ss then [] else path_text ss) h)

-- A path that is not decoded again.
abbrev pub PlainHidden : Bytes → Type 0
PlainHidden path = Some (segments path) ⊎ (path ≡ root)

pub PlainHidden-refused : (path : Bytes) → PlainHidden path → is_refused_entry path ≡ true
unfolding is_refused_entry is_refused is_protected_path bytes_eq
PlainHidden-refused path (inl h) = or-true (bytes_eq path root) _ (
    or-true (is_empty path) _ (
      or-true (is_empty path) _
        (sym (any-nonempty (pieces slash path)) ∙ Some-any (segments path) h)))
PlainHidden-refused path (inr h) = ap is_refused_entry h

-- What may follow the path of a destination.
pub data Query : Bytes → Type 0 where
  no_query : Query []
  query : (q : Bytes) → Query (b'?' ∷ q)

-- A `Destination` header with a path: the path, or a URL with a scheme, a host and the path behind it.
pub data Names : Bytes → Bytes → Type 0 where
  names_path :
      (p q : Bytes)
      → Query q
      → find (codes "?") p ≡ none
      → find (codes "://") (p ++ q) ≡ none
      → Names (p ++ q) p
  names_url :
      (scheme host p q : Bytes)
      → Query q
      → Free (codes "://") scheme
      → Free root host
      → find (codes "?") (slash ∷ p) ≡ none
      → Names (scheme ++ (codes "://" ++ (host ++ (root ++ (p ++ q))))) (slash ∷ p)

without_query_lem :
    (p q : Bytes)
    → Query q
    → find (codes "?") p ≡ none
    → without_query (p ++ q) (find (codes "?") (p ++ q)) ≡ p
without_query_lem p q no_query h =
    ap (λ (v : Bytes). without_query v (find (codes "?") v)) (append-nil p) ∙ ap (without_query p) h
without_query_lem p q (query rest) h =
    ap (without_query (p ++ b'?' ∷ rest))
      (find-Free b'?' [] p rest (ap (find (codes "?")) (append-nil p) ∙ h))
    ∙ take-append p (b'?' ∷ rest)

without_host_lem :
    (scheme host rest : Bytes)
    → Free (codes "://") scheme
    → Free root host
    → (let v = scheme ++ (codes "://" ++ (host ++ (root ++ rest))) in
        without_host v (find (codes "://") v) ≡ root ++ rest)
without_host_lem scheme host rest h k =
    let tail = host ++ (root ++ rest) in
    let v = scheme ++ (codes "://" ++ tail) in
    let start = length scheme + 3 in
    let behind : drop start v ≡ tail = drop-add 3 scheme (codes "://" ++ tail) in
    ap (without_host v) (find-Free b':' (codes "//") scheme tail h)
    ∙ ap (from_slash v start) (ap (find root) behind ∙ find-Free slash [] host rest k)
    ∙ sym (drop-drop (length host) start v)
    ∙ ap (drop (length host)) behind
    ∙ drop-append host (root ++ rest)

destination-Names : (v p : Bytes) → Names v p → destination (some v) ≡ normalize_path p
destination-Names v p (names_path path q tail plain no_host) =
    ap
      (λ (o : Option ℕ).
        let value = without_host (path ++ q) o in
        normalize_path (without_query value (find (codes "?") value)))
      no_host
    ∙ ap normalize_path (without_query_lem path q tail plain)
destination-Names v p (names_url scheme host path q tail h k plain) =
    ap (λ (u : Bytes). normalize_path (without_query u (find (codes "?") u)))
      (without_host_lem scheme host (path ++ q) h k)
    ∙ ap normalize_path (without_query_lem (slash ∷ path) q tail plain)

-- No destination, or one whose path is refused.
abbrev pub HiddenDestination : Headers → Type 0
HiddenDestination headers =
    (header (codes "destination") headers ≡ none)
    ⊎ ((v : Bytes) × (p : Bytes) × (header (codes "destination") headers ≡ some v)
        × Names v p
        × HiddenEntry p)

pub HiddenDestination-refused :
    (headers : Headers)
    → HiddenDestination headers
    → is_refused_entry (destination_path headers) ≡ true
unfolding is_refused_entry destination_path is_refused bytes_eq
HiddenDestination-refused headers (inl none_there) =
    ap (λ (o : Option Bytes). is_refused_entry (destination o)) none_there
HiddenDestination-refused headers (inr (v, p, there, names, h)) =
    ap (λ (o : Option Bytes). is_refused_entry (destination o)) there
    ∙ ap is_refused_entry (destination-Names v p names)
    ∙ HiddenEntry-refused p h
