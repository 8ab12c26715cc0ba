-- ===== src/FileTransfer/Copy/Tests.antt =====
-- Copies by src/CrossPointWebServer.cpp of a small storage.
use crosspoint_simulator.Prelude.{
  ◌≡◌, refl, Bool, true, false, [], ◌∷◌, Option, none, some, if◌then◌else◌, arith, all, Bytes,
  codes, bytes_eq,
}
use crosspoint_simulator.Http.Response.{c_string}
use crosspoint_simulator.FileTransfer.Path.{is_protected_name, join_path}
use crosspoint_simulator.FileTransfer.Storage.{
  Entry, Opened, Call, Answer, exists, open_at, make_dir, remove_file, remove_dir, rename_to,
  copy_to, write_to, begin_upload, end_upload,
}
use crosspoint_simulator.FileTransfer.Copy.{
  copy_path, copy_entries, copy_opened, copy_file, and_then,
}
use crosspoint_simulator.FileTransfer.Copy.Plan.{
  Tree, file, folder, end, entry, height, heights, plan, Holds, HoldsAll, succeeds, attempted,
  changes,
}
use crosspoint_simulator.FileTransfer.Copy.Copied.{copy_path-plan}

abbrev small : Opened
small = record { directory = false; size = 3; entries = []; reads = (1 ∷ 2 ∷ []) ∷ (3 ∷ []) ∷ [] }

abbrev listed : Bytes → Bool → Entry
listed name directory = record { name = name; directory = directory; size = 0 }

abbrev books : Opened
books = record {
  directory = true;
  size = 0;
  entries = listed (codes "a") false ∷ listed (codes ".x") true ∷ listed (codes "b") false ∷ [];
  reads = [];
}

abbrev opened_at : Bytes → Option Opened
opened_at p =
    if bytes_eq p (codes "/s")
    then some books
    else if bytes_eq p (codes "/s/a")
    then some small
    else if bytes_eq p (codes "/s/b")
    then some small
    else none

-- The disk is full after two bytes of `/d/b`.
abbrev card : (c : Call) → Answer c
card (exists p) = true
card (open_at p) = opened_at p
card (make_dir p) = true
card (remove_file p) = true
card (remove_dir p) = true
card (rename_to p q) = true
card (copy_to p q) = true
card (write_to p bytes) = if bytes_eq p (codes "/d/b") then some 2 else some 3
card (begin_upload name total) = tt
card (end_upload ok name size) = tt

abbrev tree : Tree
tree =
    let text = file ((1 ∷ 2 ∷ []) ∷ (3 ∷ []) ∷ []) in
    folder (entry (codes "a") text (entry (codes ".x") (folder end) (entry (codes "b") text end)))

full_disk : changes card (copy_path 2 (codes "/s") (codes "/d")) ≡ (
  make_dir (codes "/d")
      ∷ write_to (codes "/d/a") (1 ∷ 2 ∷ 3 ∷ [])
      ∷ write_to (codes "/d/b") (1 ∷ 2 ∷ 3 ∷ [])
      ∷ remove_file (codes "/d/b")
      ∷ [],
  false,
)
unfolding changes copy_path copy_opened copy_entries copy_file and_then c_string bytes_eq join_path
    is_protected_name
full_disk = refl

tree-Holds : Holds card (codes "/s") tree
unfolding Holds HoldsAll c_string bytes_eq join_path is_protected_name
tree-Holds = (
  books,
  refl,
  refl,
  (
    refl,
    (λ _. (small, refl, refl, refl)),
    (refl, (λ h. absurd (cc h)), (refl, (λ _. (small, refl, refl, refl)), tt)),
  ),
)

copy_path-plan_example :
    changes card (copy_path 2 (codes "/s") (codes "/d"))
    ≡ (attempted card (plan (codes "/d") tree), all (succeeds card) (plan (codes "/d") tree))
unfolding height heights
copy_path-plan_example =
    copy_path-plan card (codes "/s") (codes "/d") tree 2 (omega arith) tree-Holds
