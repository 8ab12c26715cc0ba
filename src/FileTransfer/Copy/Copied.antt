-- ===== src/FileTransfer/Copy/Copied.antt =====
-- A copy by src/CrossPointWebServer.cpp does what is planned for the tree.
use crosspoint_simulator.Prelude.{
  ℕ, zero, suc, ◌≤◌, ◌≡◌, refl, Bool, true, false, List, [], ◌∷◌, ◌++◌, append_assoc, arith, all,
  Bytes, ◌∙◌, ap, ap₂, sym, Bool-cases, inl, inr, if◌then◌else◌, Option, none, some, length, ◌==◌,
}
use crosspoint_simulator.Http.Response.{c_string}
use crosspoint_simulator.FileTransfer.Path.{is_protected_name, join_path}
use crosspoint_simulator.FileTransfer.Change.{has_written}
use crosspoint_simulator.FileTransfer.Storage.{
  Entry, Opened, Call, Answer, Program, done, ask, make_dir, write_to,
}
use crosspoint_simulator.FileTransfer.Copy.{
  copy_path, copy_entries, copy_opened, copy_file, and_then, go_on, joined, copied,
}
use crosspoint_simulator.FileTransfer.Copy.Plan.{
  Tree, Trees, file, folder, end, entry, height, heights, plan, plans, Holds, HoldsAll, succeeds,
  attempted, changes, cleanup, changed, or_removed,
}

-- Calls with their result, and more of them if that is `true`.
abbrev chain : List Call × Bool → List Call × Bool → List Call × Bool
chain (cs, true) r = (cs ++ r.0, r.1)
chain (cs, false) r = (cs, false)

chain_assoc : (p q r : List Call × Bool) → chain (chain p q) r ≡ chain p (chain q r)
chain_assoc (cs, true) (ds, true) r = ap (λ (es : List Call). (es, r.1)) (append_assoc cs ds r.0)
chain_assoc (cs, true) (ds, false) r = refl
chain_assoc (cs, false) q r = refl

chain-behind :
    (cs : List Call) (p r : List Call × Bool)
    → chain (cs ++ p.0, p.1) r ≡ (cs ++ (chain p r).0, (chain p r).1)
chain-behind cs (ds, true) r = ap (λ (es : List Call). (es, r.1)) (append_assoc cs ds r.0)
chain-behind cs (ds, false) r = refl

module _ (answer : (c : Call) → Answer c) where
  -- What planned calls give.
  abbrev planned : List Call → List Call × Bool
  planned cs = (attempted answer cs, all (succeeds answer) cs)

  planned-cons :
      (c : Call) (cs : List Call)
      → planned (c ∷ cs)
        ≡ chain
            (c ∷ (if succeeds answer c then [] else cleanup answer c), succeeds answer c)
            (planned cs)
  unfolding attempted
  planned-cons c cs = elim (Bool-cases (succeeds answer c)) [
    | inl e ↦ rw e refl
    | inr e ↦ rw e refl
  ]

  planned-append : (cs ds : List Call) → planned (cs ++ ds) ≡ chain (planned cs) (planned ds)
  unfolding attempted
  planned-append [] ds = refl
  planned-append (c ∷ cs) ds =
      let first : List Call × Bool =
        (c ∷ (if succeeds answer c then [] else cleanup answer c), succeeds answer c) in
      planned-cons c (cs ++ ds)
      ∙ ap (chain first) (planned-append cs ds)
      ∙ sym (chain_assoc first (planned cs) (planned ds))
      ∙ ap (λ (p : List Call × Bool). chain p (planned ds)) (sym (planned-cons c cs))

  single :
      (c : Call)
      → (c ∷ (if succeeds answer c then [] else cleanup answer c), succeeds answer c)
        ≡ planned (c ∷ [])
  unfolding attempted
  single c = elim (Bool-cases (succeeds answer c)) [ inl e ↦ rw e refl | inr e ↦ rw e refl ]

  changes-go_on :
      (p rest : Program Bool)
      → changes answer (and_then p (go_on rest)) ≡ chain (changes answer p) (changes answer rest)
  unfolding changes and_then
  changes-go_on (done true) rest = refl
  changes-go_on (done false) rest = refl
  changes-go_on (ask c k) rest =
      ap (λ (p : List Call × Bool). (changed answer c ++ p.0, p.1))
        (changes-go_on (k (answer c)) rest)
      ∙ sym (chain-behind (changed answer c) (changes answer (k (answer c))) (changes answer rest))

  copied_lem :
      (dest : Bytes) (bytes : Bytes) (a : Option ℕ)
      → answer (write_to dest bytes) ≡ a
      → changes answer (copied dest (length bytes) a)
        ≡ (if has_written bytes a then [] else or_removed answer dest a, has_written bytes a)
  unfolding changes
  copied_lem dest bytes none e = refl
  copied_lem dest bytes (some n) e = elim (Bool-cases (n == length bytes)) [
    | inl h ↦ rw h refl
    | inr h ↦ rw h refl
  ]

  copy_file_lem :
      (dest : Bytes) (input : Opened)
      → changes answer (copy_file (c_string dest) input) ≡ planned (plan dest (file input.reads))
  unfolding changes copy_file plan attempted succeeds cleanup
  copy_file_lem dest input =
      let bytes = joined input.reads in
      ap (λ (p : List Call × Bool). (write_to (c_string dest) bytes ∷ p.0, p.1))
        (copied_lem (c_string dest) bytes (answer (write_to (c_string dest) bytes)) refl)
      ∙ single (write_to (c_string dest) bytes)

  folder_lem :
      (dest : Bytes) (rest : Program Bool) (cs : List Call)
      → changes answer rest ≡ planned cs
      → changes answer (ask (make_dir dest) (go_on rest)) ≡ planned (make_dir dest ∷ cs)
  unfolding changes attempted succeeds cleanup
  folder_lem dest rest cs h = elim (Bool-cases (answer (make_dir dest))) [
    | inl e ↦ rw e (ap (λ (p : List Call × Bool). (make_dir dest ∷ p.0, p.1)) h)
    | inr e ↦ rw e refl
  ]

  mutual
    unfolding attempted changes copy_path copy_opened copy_entries plan plans height heights Holds
        HoldsAll

    copied_tree :
        (depth : ℕ) (source dest : Bytes) (t : Tree)
        → height t ≤ depth
        → Holds answer source t
        → changes answer (copy_path depth source dest) ≡ planned (plan dest t)
    copied_tree zero source dest (file reads) low h = absurd (omega (arith, low))
    copied_tree zero source dest (folder ts) low h = absurd (omega (arith, low))
    copied_tree (suc depth) source dest (file reads) low (input, found, plain, same) = rw found (
        rw plain
          (copy_file_lem dest input ∙ ap (λ (r : List Bytes). planned (plan dest (file r))) same))
    copied_tree (suc depth) source dest (folder ts) low (input, found, is_folder, held) = rw found (
        rw is_folder (
          folder_lem (c_string dest) (copy_entries (copy_path depth) source dest input.entries)
            (plans dest ts)
            (copied_trees depth source dest ts input.entries (omega (arith, low)) held)))

    copied_trees :
        (depth : ℕ) (source dest : Bytes) (ts : Trees) (children : List Entry)
        → heights ts ≤ depth
        → HoldsAll answer source ts children
        → changes answer (copy_entries (copy_path depth) source dest children)
          ≡ planned (plans dest ts)
    copied_trees depth source dest end [] low h = refl
    copied_trees depth source dest end (child ∷ children) low h = absurd h
    copied_trees depth source dest (entry name t ts) [] low h = absurd h
    copied_trees depth source dest (entry name t ts) (child ∷ children) low (named, here, later) =
        let rest = copied_trees depth source dest ts children (omega (arith, low)) later in
        rw named (elim (Bool-cases (is_protected_name name)) [
          | inl e ↦ rw e rest
          | inr e ↦ rw e (
              changes-go_on (copy_path depth (join_path source name) (join_path dest name))
                (copy_entries (copy_path depth) source dest children)
              ∙ ap₂ chain
                  (copied_tree depth (join_path source name) (join_path dest name) t
                    (omega (arith, low)) (here e))
                  rest
              ∙ sym (planned-append (plan (join_path dest name) t) (plans dest ts)))
        ])

  -- Where storage holds a tree of files at the source, a copy makes the changes that are planned for
  -- it, which are those of its files and folders without the protected ones, in order, up to the first
  -- that fails, and then removes a file that it could not write; it succeeds exactly when each of them does.
  pub copy_path-plan :
      (source dest : Bytes) (t : Tree) (depth : ℕ)
      → height t ≤ depth
      → Holds answer source t
      → changes answer (copy_path depth source dest)
        ≡ (attempted answer (plan dest t), all (succeeds answer) (plan dest t))
  copy_path-plan source dest t depth low h = copied_tree depth source dest t low h
