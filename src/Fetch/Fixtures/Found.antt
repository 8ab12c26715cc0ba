-- ===== src/Fetch/Fixtures/Found.antt =====
-- The search of src/SimHttpFetch.h for a file by its name.
use crosspoint_simulator.Prelude.{
  if◌then◌else◌, subst, ℕ, zero, suc, ◌≡◌, Bool, true, false, List, [], ◌∷◌, Option, Bytes, ◌⊎◌,
  inr, inl, bytes_eq→eq, subst, bytes_eq_refl, refl,
}
use crosspoint_simulator.Fetch.Fixtures.{
  is_dots, child_path, or_nothing, find_file_by_basename, find_among, none, some, bytes_eq, or_else,
}

module _ (list_dir : Bytes → Option (List Bytes)) (is_directory : Bytes → Bool) where
  -- One of the entries of a folder has the name, or is a folder below which the file is.
  unfoldable pub Among : (Bytes → Type 0) → Bytes → Bytes → Bytes → List Bytes → Type 0
  Among Deeper dir name path [] = ⊥
  Among Deeper dir name path (entry ∷ entries) =
      ((is_dots entry ≡ false)
        × (((entry ≡ name) × (path ≡ child_path dir entry))
            ⊎ ((is_directory (child_path dir entry) ≡ true) × Deeper (child_path dir entry))))
      ⊎ Among Deeper dir name path entries

  -- The path is that of a file of the name, at most so many levels below the folder.
  unfoldable pub Below : ℕ → Bytes → Bytes → Bytes → Type 0
  Below zero dir name path = ⊥
  Below (suc levels) dir name path =
      Among (λ d. Below levels d name path) dir name path (or_nothing (list_dir dir))

pick-some :
    (dots same folder : Bool) (below rest : Option Bytes) (here path : Bytes)
    → (if dots
        then rest
        else if same
        then some here
        else or_else (if folder then below else none) rest)
      ≡ some path
    → ((dots ≡ false) × (((same ≡ true) × (path ≡ here)) ⊎ ((folder ≡ true) × (below ≡ some path))))
      ⊎ (rest ≡ some path)
pick-some true same folder below rest here path h = inr h
pick-some false true folder below rest here path h = inl (refl, inl (refl, cc h))
pick-some false false true (some p) rest here path h = inl (refl, inr (refl, h))
pick-some false false true none rest here path h = inr h
pick-some false false false below rest here path h = inr h

pick-none :
    (dots same folder : Bool) (below rest : Option Bytes) (here : Bytes)
    → (if dots
        then rest
        else if same
        then some here
        else or_else (if folder then below else none) rest)
      ≡ none
    → (rest ≡ none) × (dots ≡ false → (same ≡ false) × (folder ≡ true → below ≡ none))
pick-none true same folder below rest here h = (h, λ e. absurd (cc e))
pick-none false true folder below rest here h = absurd (cc h)
pick-none false false true (some p) rest here h = absurd (cc h)
pick-none false false true none rest here h = (h, λ _. (refl, λ _. refl))
pick-none false false false below rest here h = (h, λ _. (refl, λ e. absurd (cc e)))

module _ (list_dir : Bytes → Option (List Bytes)) (is_directory : Bytes → Bool) where
  module _ (deeper : Bytes → Option Bytes) (dir name path : Bytes) (Deeper : Bytes → Type 0) where
    find_among-Among :
        (entries : List Bytes)
        → ((d : Bytes) → deeper d ≡ some path → Deeper d)
        → find_among list_dir is_directory deeper dir name entries ≡ some path
        → Among list_dir is_directory Deeper dir name path entries
    unfolding find_among Among
    find_among-Among [] down h = absurd (cc h)
    find_among-Among (entry ∷ entries) down h =
        let here = child_path dir entry in
        let rest = find_among list_dir is_directory deeper dir name entries in
        elim (pick-some (is_dots entry) (bytes_eq entry name) (is_directory here) (deeper here) rest
          here path h) [
            | inl (free, inl (same, e)) ↦ inl (free, inl (bytes_eq→eq entry name same, e))
            | inl (free, inr (folder, e)) ↦ inl (free, inr (folder, down here e))
            | inr later ↦ inr (find_among-Among entries down later)
          ]

    find_among-cons :
        (entry : Bytes) (entries : List Bytes)
        → find_among list_dir is_directory deeper dir name (entry ∷ entries) ≡ none
        → (find_among list_dir is_directory deeper dir name entries ≡ none)
          × (is_dots entry ≡ false
              → (bytes_eq entry name ≡ false)
                × (is_directory (child_path dir entry) ≡ true
                    → deeper (child_path dir entry) ≡ none))
    unfolding find_among
    find_among-cons entry entries h =
        let here = child_path dir entry in
        pick-none (is_dots entry) (bytes_eq entry name) (is_directory here) (deeper here)
          (find_among list_dir is_directory deeper dir name entries) here h

    find_among-none :
        (entries : List Bytes)
        → ((d : Bytes) → deeper d ≡ none → Deeper d → ⊥)
        → find_among list_dir is_directory deeper dir name entries ≡ none
        → Among list_dir is_directory Deeper dir name path entries
        → ⊥
    unfolding Among
    find_among-none [] down h k = k
    find_among-none (entry ∷ entries) down h (inr later) =
        find_among-none entries down (find_among-cons entry entries h).0 later
    find_among-none (entry ∷ entries) down h (inl (free, inl (same, e))) =
        let yes = subst (λ (n : Bytes). bytes_eq entry n ≡ true) same (bytes_eq_refl entry) in
        let no = ((find_among-cons entry entries h).1 free).0 in absurd (cc (yes, no))
    find_among-none (entry ∷ entries) down h (inl (free, inr (folder, held))) =
        down (child_path dir entry) (((find_among-cons entry entries h).1 free).1 folder) held

  -- The path that the search returns, with any number of levels, is that of a file or folder of the
  -- name at most as many levels below the folder, and no part of it is `.` or `..`; and where it returns
  -- none, there is none.
  pub find_file_by_basename-Below :
      (levels : ℕ) (dir name path : Bytes)
      → (find_file_by_basename list_dir is_directory levels dir name ≡ some path
          → Below list_dir is_directory levels dir name path)
        × (find_file_by_basename list_dir is_directory levels dir name ≡ none
            → Below list_dir is_directory levels dir name path
            → ⊥)
  unfolding find_file_by_basename Below
  find_file_by_basename-Below zero dir name path = (λ h. absurd (cc h), λ _ h. h)
  find_file_by_basename-Below (suc levels) dir name path = (
    find_among-Among (λ d. find_file_by_basename list_dir is_directory levels d name) dir name path
        (λ d. Below list_dir is_directory levels d name path) (or_nothing (list_dir dir))
        (λ d. (find_file_by_basename-Below levels d name path).0),
    find_among-none (λ d. find_file_by_basename list_dir is_directory levels d name) dir name path
        (λ d. Below list_dir is_directory levels d name path) (or_nothing (list_dir dir))
        (λ d. (find_file_by_basename-Below levels d name path).1),
  )
