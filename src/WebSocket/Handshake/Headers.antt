-- ===== src/WebSocket/Handshake/Headers.antt =====
-- Which header the server answers.
use crosspoint_simulator.Prelude.{
  suc, ◌+◌, ◌≡◌, ◌≢◌, refl, ap, ◌∙◌, List, [], ◌∷◌, ◌++◌, map, Option, none, some, arith,
  if◌then◌else◌, length, take, drop, Bytes, bytes_eq, bytes_eq→eq, bytes_eq_refl, find, lower, trim,
  Bool-cases, Option-cases, inl, inr, take-append, All,
}
use crosspoint_simulator.WebSocket.Handshake.{
  Headers, header, assign, drop_return, add_header, add_headers,
}

pub header-assign :
    (m n v : Bytes) (hs : Headers)
    → header n (assign m v hs) ≡ (if bytes_eq m n then some v else header n hs)
unfolding header assign
header-assign m n v [] = refl
header-assign m n v ((i, w) ∷ hs) = elim (Bool-cases (bytes_eq i m)) [
  | inl same ↦ rw (same, assign) (rw (bytes_eq→eq i m same) (ground arith))
  | inr other ↦
      rw (other, assign)
        (ground (arith, header-assign m n v hs, bytes_eq→eq i n, bytes_eq→eq m n, bytes_eq_refl n))
]

-- The name that a line gives a value to.
abbrev pub line_name : Bytes → Option Bytes
line_name line = elim (find (b':' ∷ []) (drop_return line)) [
  | none ↦ none
  | some colon ↦ some (map lower (take colon (drop_return line)))
]

abbrev HasNoColon : Bytes → Type 0
HasNoColon = All (λ c. c ≢ b':')

find-colon : (n v : Bytes) → HasNoColon n → find (b':' ∷ []) (n ++ b':' ∷ v) ≡ some (length n)
unfolding find
find-colon [] v h = refl
find-colon (c ∷ n) v h = ground (arith, find-colon n v h.1)

drop_return-append : (n v : Bytes) → drop_return (n ++ b':' ∷ v) ≡ n ++ b':' ∷ drop_return v
unfolding drop_return
drop_return-append [] [] = refl
drop_return-append [] (c ∷ v) = refl
drop_return-append (c ∷ []) v = ap (◌∷◌ c) (drop_return-append [] v)
drop_return-append (c ∷ d ∷ n) v = ap (◌∷◌ c) (drop_return-append (d ∷ n) v)

-- A line that gives no value to the name leaves its value.
add_header-other :
    (name line : Bytes) (hs : Headers)
    → line_name line ≢ some name
    → header name (add_header hs line) ≡ header name hs
unfolding add_header
add_header-other name line hs ne = elim (Option-cases (find (b':' ∷ []) (drop_return line))) [
  | inl e ↦ rw (e, add_header)
  | inr (colon, e) ↦
      let m = map lower (take colon (drop_return line)) in
      let v = trim (drop (colon + 1) (drop_return line)) in
      let differs : m ≢ name = λ (same : m ≡ name). (rw (e, line_name) at ne) (ap some same) in
      rw (e, add_header) (ground (arith, header-assign m name v hs, bytes_eq→eq m name, differs))
]

add_headers-other :
    (name : Bytes) (hs : Headers) (ls : List Bytes)
    → All (λ l. line_name l ≢ some name) ls
    → header name (add_headers hs ls) ≡ header name hs
unfolding add_headers
add_headers-other name hs [] h = refl
add_headers-other name hs (l ∷ ls) h =
    add_headers-other name (add_header hs l) ls h.1 ∙ add_header-other name l hs h.0

drop_past_colon : (n v : Bytes) → drop (length n + 1) (n ++ b':' ∷ v) ≡ v
drop_past_colon [] v = refl
drop_past_colon (c ∷ n) v =
    let e : suc (length n) + 1 ≡ suc (length n + 1) = omega arith in rw e (drop_past_colon n v)

add_header_lem :
    (n v : Bytes) (hs : Headers)
    → HasNoColon n
    → add_header hs (n ++ b':' ∷ v) ≡ assign (map lower n) (trim (drop_return v)) hs
unfolding add_header
add_header_lem n v hs h =
    rw (drop_return-append n v, find-colon n (drop_return v) h, add_header)
      (rw (
        drop_return-append n v,
        take-append n (b':' ∷ drop_return v),
        drop_past_colon n (drop_return v),
      ))

-- A header counts whatever the case of its name, without the white space round its value, and the
-- last line that gives one name a value wins.
header-add_headers :
    (name n v : Bytes) (hs : Headers) (pre post : List Bytes)
    → HasNoColon n
    → map lower n ≡ name
    → All (λ l. line_name l ≢ some name) post
    → header name (add_headers hs (pre ++ (n ++ b':' ∷ v) ∷ post)) ≡ some (trim (drop_return v))
unfolding add_headers
header-add_headers name n v hs [] post c e h =
    add_headers-other name (add_header hs (n ++ b':' ∷ v)) post h
    ∙ ap (header name) (add_header_lem n v hs c)
    ∙ header-assign (map lower n) name (trim (drop_return v)) hs
    ∙ rw (e, bytes_eq_refl name)
header-add_headers name n v hs (l ∷ pre) post c e h =
    header-add_headers name n v (add_header hs l) pre post c e h
