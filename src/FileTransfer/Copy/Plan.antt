-- ===== src/FileTransfer/Copy/Plan.antt =====
-- What a copy by src/CrossPointWebServer.cpp is to do, by the tree of files that is copied.
use crosspoint_simulator.Prelude.{
  ℕ, suc, max, Bool, true, false, List, [], ◌∷◌, ◌++◌, Option, none, some, if◌then◌else◌, Bytes,
  ◌≡◌,
}
use crosspoint_simulator.Http.Response.{c_string}
use crosspoint_simulator.FileTransfer.Path.{is_protected_name, join_path}
use crosspoint_simulator.FileTransfer.Storage.{
  Entry, Opened, Call, Answer, Program, done, ask, open_at, make_dir, remove_file, write_to,
}
use crosspoint_simulator.FileTransfer.Change.{has_written}
use crosspoint_simulator.FileTransfer.Copy.{joined}

mutual
  -- A file with what is read of it, or a folder.
  pub data Tree : Type 0 where
    file : List Bytes → Tree
    folder : Trees → Tree

  pub data Trees : Type 0 where
    end : Trees
    entry : Bytes → Tree → Trees → Trees

-- How many folders deep a tree is, the file or folder itself included.
unfoldable mutual
  pub height : Tree → ℕ
  height (file reads) = 1
  height (folder ts) = suc (heights ts)

  pub heights : Trees → ℕ
  heights end = 0
  heights (entry name t ts) = max (height t) (heights ts)

-- The calls that make a copy of a tree without its protected entries.
unfoldable mutual
  pub plan : Bytes → Tree → List Call
  plan dest (file reads) = write_to (c_string dest) (joined reads) ∷ []
  plan dest (folder ts) = make_dir (c_string dest) ∷ plans dest ts

  pub plans : Bytes → Trees → List Call
  plans dest end = []
  plans dest (entry name t ts) =
      let rest = plans dest ts in
      if is_protected_name name then rest else plan (join_path dest name) t ++ rest

module _ (answer : (c : Call) → Answer c) where
  unfoldable mutual
    -- The storage holds a tree at a path. What is under a protected name is not looked at.
    pub Holds : Bytes → Tree → Type 0
    Holds source (file reads) =
        (input : Opened) × (answer (open_at (c_string source)) ≡ some input)
        × (input.directory ≡ false)
        × (input.reads ≡ reads)
    Holds source (folder ts) =
        (input : Opened) × (answer (open_at (c_string source)) ≡ some input)
        × (input.directory ≡ true)
        × HoldsAll source ts input.entries

    pub HoldsAll : Bytes → Trees → List Entry → Type 0
    HoldsAll source end [] = Unit
    HoldsAll source end (child ∷ children) = ⊥
    HoldsAll source (entry name t ts) [] = ⊥
    HoldsAll source (entry name t ts) (child ∷ children) =
        (child.name ≡ name)
        × (is_protected_name name ≡ false → Holds (join_path source name) t)
        × HoldsAll source ts children

  -- A call that succeeds.
  unfoldable pub succeeds : Call → Bool
  succeeds (make_dir p) = answer (make_dir p)
  succeeds (write_to p bytes) = has_written bytes (answer (write_to p bytes))
  succeeds _ = true

  abbrev pub or_removed : Bytes → Option ℕ → List Call
  or_removed p none = []
  or_removed p (some n) = remove_file p ∷ []

  -- After a call that failed: a file that was opened for writing is removed.
  unfoldable pub cleanup : Call → List Call
  cleanup (write_to p bytes) = or_removed p (answer (write_to p bytes))
  cleanup _ = []

  -- Planned calls are made up to the first that fails.
  unfoldable pub attempted : List Call → List Call
  unfolding succeeds cleanup
  attempted [] = []
  attempted (c ∷ cs) = let rest = attempted cs in c ∷ (if succeeds c then rest else cleanup c)

  abbrev pub changed : Call → List Call
  changed (open_at p) = []
  changed c = c ∷ []

  -- The calls of a run that change something, and its result.
  unfoldable pub changes : Program Bool → List Call × Bool
  changes (done ok) = ([], ok)
  changes (ask c k) = let (later, ok) = changes (k (answer c)) in (changed c ++ later, ok)
