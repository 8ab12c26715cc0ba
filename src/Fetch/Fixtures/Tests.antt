-- ===== src/Fetch/Fixtures/Tests.antt =====
-- Fetches of fixtures by src/SimHttpFetch.h.
use crosspoint_simulator.Prelude.{
  starts_with, ◌≡◌, refl, Bool, true, false, List, [], ◌∷◌, Option, none, some, if◌then◌else◌,
  Bytes, codes, bytes_eq, is_empty,
}
use crosspoint_simulator.Http.Response.{c_string}
use crosspoint_simulator.Http.Url.{hex_value}
use crosspoint_simulator.FileTransfer.Path.{basename_of, find_last}
use crosspoint_simulator.Fetch.Fixtures.{
  Response, Contents, closed, whole, no_response, basename_from_url, find_file_by_basename,
  find_among, child_path, is_plain, fetch_from_mock_root, fetch_from_file_url, fetch_untraced,
  unescape, unescape_at, unescape_from, before_query,
}
use crosspoint_simulator.Fetch.Fixtures.Found.{Below, find_file_by_basename-Below}
use crosspoint_simulator.Fetch.Fixtures.Served.{Fixture, PlainName, fetch_from_mock_root-Fixture}

abbrev contents : Bytes → Contents
contents path = if bytes_eq path (codes "fix/sub/a b") then whole (codes "hello") else closed

abbrev listing : Bytes → Option (List Bytes)
listing dir =
    if bytes_eq dir (codes "fix")
    then some (codes "." ∷ codes ".." ∷ codes "sub" ∷ [])
    else if bytes_eq dir (codes "fix/sub")
    then some (codes "a b" ∷ [])
    else none

abbrev folder : Bytes → Bool
folder path = bytes_eq path (codes "fix/sub")

abbrev hello : Response
hello = record { status_code = 200; curl_exit_code = 0; body = codes "hello" }

-- What the network would give.
abbrev offline : Bytes → Response → Bool × Response
offline url out = (false, out)

nested :
    fetch_untraced contents listing folder offline (some (codes "fix")) (codes "http://x/y/a%20b?q")
    ≡ (true, hello)
unfolding fetch_untraced fetch_from_mock_root fetch_from_file_url find_file_by_basename find_among
    child_path is_plain basename_from_url unescape unescape_at unescape_from before_query
    basename_of find_last hex_value c_string bytes_eq
nested = refl

file_url :
    fetch_untraced contents listing folder offline none (codes "file://localhost/a")
    ≡ (true, record no_response { status_code = 404 })
unfolding fetch_untraced fetch_from_mock_root fetch_from_file_url unescape unescape_at unescape_from
    hex_value c_string starts_with bytes_eq
file_url = refl

fetch_from_mock_root-Fixture_example :
    (hello.status_code ≡ 200)
    × (is_empty hello.body ≡ false)
    × PlainName (basename_from_url (codes "http://x/y/a%20b?q"))
    × Fixture contents listing folder
        (codes "fix")
        (basename_from_url (codes "http://x/y/a%20b?q"))
        hello.body
unfolding fetch_from_mock_root find_file_by_basename find_among child_path is_plain
    basename_from_url unescape unescape_at unescape_from before_query basename_of find_last
    hex_value c_string bytes_eq
fetch_from_mock_root-Fixture_example =
    fetch_from_mock_root-Fixture contents listing folder (codes "fix") (codes "http://x/y/a%20b?q")
      no_response hello refl

find_file_by_basename-Below_example :
    (find_file_by_basename listing folder 6 (codes "fix") (codes "a b") ≡ some (codes "fix/sub/a b")
      → Below listing folder 6 (codes "fix") (codes "a b") (codes "fix/sub/a b"))
    × (find_file_by_basename listing folder 6 (codes "fix") (codes "a b") ≡ none
        → Below listing folder 6 (codes "fix") (codes "a b") (codes "fix/sub/a b")
        → ⊥)
find_file_by_basename-Below_example =
    find_file_by_basename-Below listing folder 6 (codes "fix") (codes "a b") (codes "fix/sub/a b")
