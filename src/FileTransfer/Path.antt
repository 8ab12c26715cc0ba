-- ===== src/FileTransfer/Path.antt =====
-- `normalizePath`, `isProtectedName`, `isProtectedPath`, `basenameOf`, `parentOf` and the joining of
-- a directory and a name in src/CrossPointWebServer.cpp.
pub mod Squeezed
pub mod Segments
pub mod Normal
pub mod Allowed
use crosspoint_simulator.Prelude.{
  ℕ, zero, suc, ◌+◌, Bool, true, false, not, ◌&&◌, ◌||◌, List, [], ◌∷◌, ◌++◌, Option, none, some,
  ◌==◌, if◌then◌else◌, length, take, drop, any, is_empty, Bytes, codes, find, bytes_eq,
}
use crosspoint_simulator.FileTransfer.Decode.{url_decode, pieces}

abbrev pub slash : ℕ
slash = b'/'

abbrev pub root : Bytes
root = slash ∷ []

-- An empty path is the root, and another begins with a slash.
abbrev pub rooted : Bytes → Bytes
rooted [] = root
rooted (c ∷ cs) = if c == slash then c ∷ cs else slash ∷ c ∷ cs

-- `path.replace(i, 2, "/")`
unfoldable pub replace_pair : ℕ → Bytes → Bytes
replace_pair zero (a ∷ b ∷ cs) = slash ∷ cs
replace_pair zero _ = root
replace_pair (suc i) [] = []
replace_pair (suc i) (c ∷ cs) = c ∷ replace_pair i cs

abbrev pub double_slash : Bytes
double_slash = slash ∷ slash ∷ []

-- The loop that replaces the first `//` as long as there is one. A round takes a byte away, so as
-- much fuel as the path has bytes is enough.
unfoldable pub collapse : ℕ → Bytes → Bytes
unfolding replace_pair
collapse zero path = path
collapse (suc fuel) path = elim (find double_slash path) [
  | none ↦ path
  | some i ↦ collapse fuel (replace_pair i path)
]

abbrev pub is_dotdot : Bytes → Bool
is_dotdot part = bytes_eq part (codes "..")

-- `path.pop_back()` behind a check that the last byte is a slash.
unfoldable pub pop_slash : Bytes → Bytes
pop_slash [] = []
pop_slash (c ∷ []) = if c == slash then [] else c ∷ []
pop_slash (c ∷ d ∷ cs) = c ∷ pop_slash (d ∷ cs)

unfoldable pub trim_slash : Bytes → Bytes
unfolding pop_slash
trim_slash (c ∷ d ∷ cs) = pop_slash (c ∷ d ∷ cs)
trim_slash path = path

-- The parts that `getline` makes are the pieces, but for an empty last one.
unfoldable pub finish : Bytes → Bytes
unfolding trim_slash pieces
finish path = if any is_dotdot (pieces slash path) then [] else trim_slash path

-- The empty string is a path that is refused.
unfoldable pub normalize_path : Bytes → Bytes
unfolding url_decode collapse finish
normalize_path path =
    let from_root = rooted (url_decode path) in finish (collapse (length from_root) from_root)

abbrev first_is_dot : Bytes → Bool
first_is_dot [] = false
first_is_dot (c ∷ cs) = c == b'.'

unfoldable pub is_protected_name : Bytes → Bool
is_protected_name name =
    is_empty name
    || (first_is_dot name
        || (bytes_eq name (codes "System Volume Information") || bytes_eq name (codes "XTCache")))

abbrev pub is_protected_part : Bytes → Bool
is_protected_part part = not (is_empty part) && is_protected_name part

-- The loop skips the slashes in front of a part, and so the empty pieces.
unfoldable pub is_protected_path : Bytes → Bool
unfolding is_protected_name pieces
is_protected_path path = is_empty path || any is_protected_part (pieces slash path)

-- `std::string::find_last_of` for one byte.
unfoldable pub find_last : ℕ → Bytes → Option ℕ
find_last c [] = none
find_last c (x ∷ xs) = elim (find_last c xs) [
  | none ↦ if x == c then some 0 else none
  | some i ↦ some (suc i)
]

abbrev pub behind : Bytes → Option ℕ → Bytes
behind path none = path
behind path (some i) = drop (i + 1) path

unfoldable pub basename_of : Bytes → Bytes
unfolding find_last
basename_of path = behind path (find_last slash path)

abbrev pub in_front : Bytes → Option ℕ → Bytes
in_front path none = root
in_front path (some zero) = root
in_front path (some (suc i)) = take (suc i) path

unfoldable pub parent_of : Bytes → Bytes
unfolding find_last
parent_of path = in_front path (find_last slash path)

-- `(dir == "/" ? "/" : dir + "/") + name`
unfoldable pub join_path : Bytes → Bytes → Bytes
join_path dir name = (if bytes_eq dir root then root else dir ++ root) ++ name
