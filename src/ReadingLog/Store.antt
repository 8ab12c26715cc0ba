-- ===== src/ReadingLog/Store.antt =====
-- `shouldRotate`, `rotate` and `append` of src/ReadingLog.h on the files of the log.
pub mod Rotated
pub mod Behind
pub mod History
pub mod Runs
use crosspoint_simulator.Prelude.{
  ℕ, zero, suc, ◌+◌, ◌*◌, Bool, true, false, List, [], ◌∷◌, ◌++◌, Option, none, some, ltb, ◌==◌,
  if◌then◌else◌, length, Bytes,
}

-- The files of the log: the base is at 0, the file with the suffix `.i` at i; `none` is no file.
abbrev pub Files : Type 0
Files = ℕ → Option Bytes

abbrev pub set : ℕ → Option Bytes → Files → Files
set i file files k = if k == i then file else files k

unfoldable pub remove : ℕ → Files → Files
remove i files = set i none files

abbrev pub moved : Option Bytes → ℕ → ℕ → Files → Files
moved none from to files = files
moved (some text) from to files = set to (some text) (set from none files)

-- Nothing happens where there is no file to rename.
unfoldable pub rename : ℕ → ℕ → Files → Files
rename from to files = moved (files from) from to files

abbrev pub generations : ℕ
generations = 12

abbrev pub rotate_bytes : ℕ
rotate_bytes = 4 * 1024 * 1024

-- The loop, from `.i` down to `.1`.
unfoldable pub shift : ℕ → Files → Files
unfolding rename
shift zero files = files
shift (suc i) files = shift i (rename (suc i) (suc (suc i)) files)

unfoldable pub rotate : Files → Files
unfolding rename remove shift
rotate files = rename 0 1 (shift 10 (remove 11 files))

-- `none` is a size of -1.
abbrev pub should_rotate : Option Bytes → ℕ → Bool
should_rotate none incoming = false
should_rotate (some text) incoming = ltb rotate_bytes (length text + incoming)

abbrev pub text_of : Option Bytes → Bytes
text_of none = []
text_of (some text) = text

-- The line with its end, at the end of the base file; `opens` says whether `fopen` succeeds.
abbrev pub write_line : Bytes → Bool → Files → Files
write_line line opens files =
    if opens then set 0 (some (text_of (files 0) ++ (line ++ 10 ∷ []))) files else files

unfoldable pub append : Bytes → Bool → Files → Files
unfolding rotate
append line opens files =
    write_line line opens
      (if should_rotate (files 0) (length line + 1) then rotate files else files)

-- Calls of `append` with their lines, each with the success of its `fopen`.
unfoldable pub run : List (Bytes × Bool) → Files → Files
unfolding append
run [] files = files
run ((line, opens) ∷ calls) files = run calls (append line opens files)
