-- ===== src/Fetch/Fixtures/Served.antt =====
-- What src/SimHttpFetch.h gives of the folder of fixtures.
use crosspoint_simulator.Prelude.{
  All, any, codes, bytes_eq, ◌==◌, [], ◌∷◌, if◌then◌else◌, subst, ap, sym, refl, ◌∙◌, ◌≡◌, Bool,
  true, false, not, ◌||◌, List, Option, none, some, is_empty, Bytes, inl, inr, arith, ◌⊎◌, ◌∙◌,
}
use crosspoint_simulator.Http.Response.{c_string}
use crosspoint_simulator.FileTransfer.Path.{slash}
use crosspoint_simulator.Fetch.Fixtures.{
  Response, Contents, closed, broken, whole, read_into, is_plain, child_path, find_file_by_basename,
  read_found, or_nested, with_body, basename_from_url, fetch_from_mock_root,
}
use crosspoint_simulator.Fetch.Fixtures.Found.{Below, find_file_by_basename-Below}

-- A name that is not empty, no dots, and holds no slash or backslash.
abbrev pub PlainName : Bytes → Type 0
PlainName name =
    (is_empty name ≡ false)
    × (bytes_eq name (codes ".") ≡ false)
    × (bytes_eq name (codes "..") ≡ false)
    × All (λ c. ((c == b'/') ≡ false) × ((c == b'\\') ≡ false)) name

no_slashes :
    (name : Bytes)
    → any (λ c. c == slash) name ≡ false
    → any (λ c. c == b'\\') name ≡ false
    → All (λ c. ((c == b'/') ≡ false) × ((c == b'\\') ≡ false)) name
no_slashes [] h k = tt
no_slashes (c ∷ name) h k = (
  (ground (arith, h), ground (arith, k)),
  no_slashes name (ground (arith, h)) (ground (arith, k)),
)

plain_lem : (name : Bytes) → is_plain name ≡ true → PlainName name
unfolding is_plain
plain_lem name h = (
  ground (arith, h),
  ground (arith, h),
  ground (arith, h),
  no_slashes name (ground (arith, h)) (ground (arith, h)),
)

guarded :
    (b : Bool) (answer : Bool × Response) (out r : Response)
    → ◌≡◌ {A = Bool × Response} (if b then (false, out) else answer) (true, r)
    → (b ≡ false) × (answer ≡ (true, r))
guarded true answer out r h = ground (arith, h)
guarded false answer out r h = (refl, h)

module _ (read_file : Bytes → Contents) (list_dir : Bytes → Option (List Bytes))
    (is_directory : Bytes → Bool) where
  -- A file of the name in the folder of fixtures or below it, with what is read of it.
  abbrev pub Fixture : Bytes → Bytes → Bytes → Type 0
  Fixture dir name body =
      (path : Bytes) × (((path ≡ c_string (child_path dir name)))
        ⊎ Below list_dir is_directory 6 dir name path)
      × (read_file path ≡ whole body)

  read_into-whole :
      (contents : Contents) (out r : Response)
      → read_into contents out ≡ (true, r)
      → contents ≡ whole r.body
  read_into-whole closed out r h = ground (arith, h)
  read_into-whole (broken bytes) out r h = ground (arith, h)
  read_into-whole (whole bytes) out r h = ap (λ (p : Bool × Response). whole p.1.body) h

  read_found-Fixture :
      (dir name : Bytes) (found : Option Bytes) (out r : Response)
      → find_file_by_basename list_dir is_directory 6 dir name ≡ found
      → read_found read_file list_dir is_directory found out ≡ (true, r)
      → Fixture dir name r.body
  read_found-Fixture dir name none out r e h = ground (arith, h)
  read_found-Fixture dir name (some path) out r e h = (
    path,
    inr ((find_file_by_basename-Below list_dir is_directory 6 dir name path).0 e),
    read_into-whole (read_file path) out r h,
  )

  or_nested-Fixture :
      (dir name : Bytes) (first : Bool × Response) (out r : Response)
      → read_into (read_file (c_string (child_path dir name))) out ≡ first
      → or_nested read_file list_dir is_directory dir name first ≡ (true, r)
      → Fixture dir name r.body
  or_nested-Fixture dir name (true, out') out r e h =
      (c_string (child_path dir name), inl refl, read_into-whole _ out r (e ∙ h))
  or_nested-Fixture dir name (false, out') out r e h = read_found-Fixture dir name _ out' r refl h

  with_body-some :
      (answer : Bool × Response) (r : Response)
      → with_body read_file list_dir is_directory answer ≡ (true, r)
      → (r.status_code ≡ 200)
        × (is_empty r.body ≡ false)
        × (s : Response) × (answer ≡ (true, s))
        × (s.body ≡ r.body)
  with_body-some (false, out) r h = ground (arith, h)
  with_body-some (true, out) r h =
      let given : Response = record out { status_code = 200 } in
      let (some_bytes, same) = guarded (is_empty out.body) (true, given) out r h in
      let body : out.body ≡ r.body = ap (λ (p : Bool × Response). p.1.body) same in
      (
        sym (ap (λ (p : Bool × Response). p.1.status_code) same),
        ap is_empty (sym body) ∙ some_bytes,
        out,
        refl,
        body,
      )

  -- What the folder of fixtures answers is a status of 200 with the whole of a file, which is not
  -- empty: that of the decoded last segment of the URL in the folder, up to a NUL in it, or one of that name
  -- at most six levels below it; and that name is not empty, no dots, and holds no slash or backslash.
  pub fetch_from_mock_root-Fixture :
      (dir url : Bytes) (out r : Response)
      → fetch_from_mock_root read_file list_dir is_directory (some dir) url out ≡ (true, r)
      → (r.status_code ≡ 200)
        × (is_empty r.body ≡ false)
        × PlainName (basename_from_url url)
        × Fixture dir (basename_from_url url) r.body
  unfolding fetch_from_mock_root
  fetch_from_mock_root-Fixture dir url out r h =
      let name = basename_from_url url in
      let first = read_into (read_file (c_string (child_path dir name))) out in
      let nested = or_nested read_file list_dir is_directory dir name first in
      let (free, h') =
        guarded (is_empty dir || not (is_plain name))
          (with_body read_file list_dir is_directory nested) out r h in
      let (ok, some_bytes, s, answered, same) = with_body-some nested r h' in
      (
        ok,
        some_bytes,
        plain_lem name (ground (arith, free)),
        subst (λ (b : Bytes). Fixture dir name b) same
            (or_nested-Fixture dir name first out s refl answered),
      )
