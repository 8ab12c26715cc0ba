-- ===== src/Fetch/Fixtures.antt =====
-- The fixtures of src/SimHttpFetch.h, which stand in for the network: a folder of files by name, and
-- URLs of files. What the host reads and lists are arguments.
pub mod Found
pub mod Served
mod Tests
use crosspoint_simulator.Prelude.{
  ℕ, zero, suc, ◌*◌, ◌+◌, Bool, true, false, not, ◌&&◌, ◌||◌, List, [], ◌∷◌, ◌++◌, Option, none,
  some, ◌==◌, if◌then◌else◌, is_empty, drop, length, any, Bytes, codes, bytes_eq, starts_with,
}
use crosspoint_simulator.Http.Url.{hex_value}
use crosspoint_simulator.Http.Response.{c_string}
use crosspoint_simulator.FileTransfer.Path.{slash, root, basename_of}

pub record Response : Type 0 where
  pub status_code : ℕ
  pub curl_exit_code : ℕ
  pub body : Bytes

abbrev pub no_response : Response
no_response = record { status_code = 0; curl_exit_code = 0; body = [] }

-- A file that is not opened, one whose reading fails after some bytes, and one that is read.
pub data Contents : Type 0 where
  closed : Contents
  broken whole : Bytes → Contents

-- `path` is a C string.
abbrev pub read_into : Contents → Response → Bool × Response
read_into closed out = (false, out)
read_into (broken bytes) out = (false, record out { body = bytes })
read_into (whole bytes) out = (true, record out { body = bytes })

abbrev hex_pair : ℕ → Option ℕ → Option ℕ → ℕ × ℕ
hex_pair c (some hi) (some lo) = (hi * 16 + lo, 2)
hex_pair c _ _ = (c, 0)

-- The byte that `c` with the bytes behind it stands for, and how many of those it takes.
unfoldable pub unescape_at : ℕ → Bytes → ℕ × ℕ
unfolding hex_value
unescape_at c (a ∷ b ∷ rest) = if c == b'%' then hex_pair c (hex_value a) (hex_value b) else (c, 0)
unescape_at c _ = (c, 0)

-- The loop of `urlDecode`. `skip` is the amount by which it has moved `i` on.
unfoldable pub unescape_from : ℕ → Bytes → Bytes
unfolding unescape_at
unescape_from skip [] = []
unescape_from zero (c ∷ rest) = (unescape_at c rest).0 ∷ unescape_from (unescape_at c rest).1 rest
unescape_from (suc skip) (c ∷ rest) = unescape_from skip rest

unfoldable pub unescape : Bytes → Bytes
unfolding unescape_from
unescape value = unescape_from 0 value

unfoldable pub before_query : Bytes → Bytes
before_query [] = []
before_query (c ∷ cs) =
    let rest = before_query cs in if (c == b'?') || (c == b'#') then [] else c ∷ rest

unfoldable pub basename_from_url : Bytes → Bytes
unfolding basename_of before_query unescape
basename_from_url url = unescape (basename_of (before_query url))

abbrev pub is_dots : Bytes → Bool
is_dots name = bytes_eq name (codes ".") || bytes_eq name (codes "..")

abbrev pub ends_in_slash : Bytes → Bool
ends_in_slash [] = false
ends_in_slash (c ∷ []) = c == slash
ends_in_slash (c ∷ d ∷ cs) = ends_in_slash (d ∷ cs)

-- `path += '/'` and the name.
unfoldable pub child_path : Bytes → Bytes → Bytes
child_path dir name = (if is_empty dir || ends_in_slash dir then dir else dir ++ root) ++ name

abbrev pub or_else : Option Bytes → Option Bytes → Option Bytes
or_else none rest = rest
or_else (some path) rest = some path

abbrev pub or_nothing : Option (List Bytes) → List Bytes
or_nothing none = []
or_nothing (some entries) = entries

unfoldable pub is_plain : Bytes → Bool
is_plain name =
    not (
      is_empty name || (is_dots name || (any (λ c. c == slash) name || any (λ c. c == b'\\') name)))

module _ (list_dir : Bytes → Option (List Bytes)) (is_directory : Bytes → Bool) where
  -- The loop over what `readdir` returns; `deeper` is the search through a folder in it.
  unfoldable pub find_among : (Bytes → Option Bytes) → Bytes → Bytes → List Bytes → Option Bytes
  find_among deeper dir name [] = none
  find_among deeper dir name (entry ∷ entries) =
      let rest = find_among deeper dir name entries in
      let path = child_path dir entry in
      let below = if is_directory path then deeper path else none in
      if is_dots entry then rest else if bytes_eq entry name then some path else or_else below rest

  -- `levels` is 6 less `depth`.
  unfoldable pub find_file_by_basename : ℕ → Bytes → Bytes → Option Bytes
  unfolding find_among
  find_file_by_basename zero dir name = none
  find_file_by_basename (suc levels) dir name =
      find_among (λ path. find_file_by_basename levels path name) dir name
        (or_nothing (list_dir dir))

module _ (read_file : Bytes → Contents) (list_dir : Bytes → Option (List Bytes))
    (is_directory : Bytes → Bool) where
  abbrev pub read_found : Option Bytes → Response → Bool × Response
  read_found none out = (false, out)
  read_found (some path) out = read_into (read_file path) out

  abbrev pub or_nested : Bytes → Bytes → Bool × Response → Bool × Response
  or_nested dir name (true, out) = (true, out)
  or_nested dir name (false, out) =
      read_found (find_file_by_basename list_dir is_directory 6 dir name) out

  abbrev pub with_body : Bool × Response → Bool × Response
  with_body (false, out) = (false, out)
  with_body (true, out) =
      if is_empty out.body then (false, out) else (true, record out { status_code = 200 })

  unfoldable pub fetch_from_mock_root : Option Bytes → Bytes → Response → Bool × Response
  unfolding find_file_by_basename child_path is_plain
  fetch_from_mock_root none url out = (false, out)
  fetch_from_mock_root (some dir) url out =
      let name = basename_from_url url in
      if is_empty dir || not (is_plain name)
      then (false, out)
      else with_body
          (or_nested dir name (read_into (read_file (c_string (child_path dir name))) out))

  abbrev pub without_localhost : Bytes → Bytes
  without_localhost path = if starts_with (codes "localhost/") path then drop 9 path else path

  abbrev pub found_or_not : Bool × Response → Response
  found_or_not (true, out) = record out { status_code = 200 }
  found_or_not (false, out) = record out { status_code = 404; body = [] }

  unfoldable pub fetch_from_file_url : Bytes → Response → Bool × Response
  unfolding unescape
  fetch_from_file_url url out =
      let path = without_localhost (unescape (drop 7 url)) in
      if not (starts_with (codes "file://") url)
      then (false, out)
      else (true, found_or_not (read_into (read_file (c_string path)) out))

  -- The next transport where one does not apply.
  abbrev pub otherwise : (Response → Bool × Response) → Bool × Response → Bool × Response
  otherwise next (true, out) = (true, out)
  otherwise next (false, out) = next out

  unfoldable pub fetch_untraced :
      (Bytes → Response → Bool × Response) → Option Bytes → Bytes → Bool × Response
  unfolding fetch_from_mock_root fetch_from_file_url
  fetch_untraced transfer mock_root url =
      otherwise (λ out. otherwise (transfer url) (fetch_from_file_url url out))
        (fetch_from_mock_root mock_root url no_response)
