-- ===== src/FileTransfer/Copy.antt =====
-- `copyPath` of src/CrossPointWebServer.cpp as a program of calls, which goes through a folder and
-- what is in it.
pub mod Plan
pub mod Copied
pub mod Reach
mod Tests
use crosspoint_simulator.Prelude.{
  ℕ, zero, suc, Bool, true, false, List, [], ◌∷◌, ◌++◌, Option, none, some, if◌then◌else◌, ◌==◌,
  length, Bytes,
}
use crosspoint_simulator.Http.Response.{c_string}
use crosspoint_simulator.FileTransfer.Path.{is_protected_name, join_path}
use crosspoint_simulator.FileTransfer.Storage.{
  Entry, Opened, open_at, make_dir, remove_file, write_to, Program, done, ask,
}

-- A program behind another one.
unfoldable pub and_then : Program Bool → (Bool → Program Bool) → Program Bool
and_then (done ok) f = f ok
and_then (ask c k) f = ask c (λ a. and_then (k a) f)

abbrev pub joined : List Bytes → Bytes
joined [] = []
joined (bytes ∷ reads) = bytes ++ joined reads

-- A write that falls short ends the loop, and what was written is removed.
abbrev pub copied : Bytes → ℕ → Option ℕ → Program Bool
copied dest total none = done false
copied dest total (some n) =
    if n == total then done true else ask (remove_file dest) (λ _. done false)

-- A file, in pieces of at most 16384 bytes.
unfoldable pub copy_file : Bytes → Opened → Program Bool
copy_file dest input =
    ask (write_to dest (joined input.reads)) (copied dest (length (joined input.reads)))

abbrev pub go_on : Program Bool → Bool → Program Bool
go_on rest ok = if ok then rest else done false

module _ (copy : Bytes → Bytes → Program Bool) (source dest : Bytes) where
  -- The loop over what is in a folder.
  unfoldable pub copy_entries : List Entry → Program Bool
  unfolding and_then
  copy_entries [] = done true
  copy_entries (child ∷ children) =
      let rest = copy_entries children in
      if is_protected_name child.name
      then rest
      else and_then (copy (join_path source child.name) (join_path dest child.name)) (go_on rest)

  unfoldable pub copy_opened : Option Opened → Program Bool
  unfolding copy_entries copy_file
  copy_opened none = done false
  copy_opened (some input) =
      if input.directory
      then ask (make_dir (c_string dest)) (go_on (copy_entries input.entries))
      else copy_file (c_string dest) input

-- `depth` is how many folders deep the recursion goes at most; the code has no limit.
unfoldable pub copy_path : ℕ → Bytes → Bytes → Program Bool
unfolding copy_opened
copy_path zero source dest = done false
copy_path (suc depth) source dest =
    ask (open_at (c_string source)) (copy_opened (copy_path depth) source dest)
