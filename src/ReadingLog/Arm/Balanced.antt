-- ===== src/ReadingLog/Arm/Balanced.antt =====
-- The arms of a block of chapters in src/ReadingArm.h.
use mathlib.Core.List.{Perm}
use mathlib.Core.List.Perm
use native.Mathlib.Nat.{
  mod-lt, mul-add-div_right, div-eq_of_lt, mul-add-mod_self_right, mod-eq_of_lt,
}
use crosspoint_simulator.Prelude.{
  ℕ, zero, suc, ◌+◌, ◌-◌, ◌*◌, ◌%◌, ◌≤◌, ◌<◌, ◌≡◌, ◌∙◌, refl, sym, ap, ap₂, subst, List, [], ◌∷◌,
  ◌++◌, map, arith, length, length-append, get_or, bit_xor, pos, min, leb, ltb, if-cases,
  append_assoc,
}
use crosspoint_simulator.ReadingLog.Arm.{
  mix, block_of, position_of, max_arms, iota, set, swap, shuffle, arm_in, arm_index,
}

length-set : (xs : List ℕ) (i v : ℕ) → length (set xs i v) ≡ length xs
length-set [] i v = refl
length-set (x ∷ xs) zero v = refl
length-set (x ∷ xs) (suc i) v = ap suc (length-set xs i v)

length-swap : (i j : ℕ) (xs : List ℕ) → length (swap i j xs) ≡ length xs
unfolding swap
length-swap i j xs =
    length-set (set xs i (get_or xs j 0)) j (get_or xs i 0) ∙ length-set xs i (get_or xs j 0)

-- The value that is written takes the place of the one that was there.
set-perm : (xs : List ℕ) (i v : ℕ) → i < length xs → Perm (get_or xs i 0 ∷ set xs i v) (v ∷ xs)
set-perm [] i v h = absurd (omega arith)
set-perm (x ∷ xs) zero v h = Perm.swap v x xs
set-perm (x ∷ xs) (suc i) v h =
    Perm.trans (Perm.swap x (get_or xs i 0) (set xs i v))
      (Perm.trans (Perm.cons x (set-perm xs i v (omega arith))) (Perm.swap v x xs))

get_or-set :
    (xs : List ℕ) (i j : ℕ) → i < length xs → get_or (set xs i (get_or xs j 0)) j 0 ≡ get_or xs j 0
get_or-set [] i j h = refl
get_or-set (x ∷ xs) zero zero h = refl
get_or-set (x ∷ xs) zero (suc j) h = refl
get_or-set (x ∷ xs) (suc i) zero h = refl
get_or-set (x ∷ xs) (suc i) (suc j) h = get_or-set xs i j (omega arith)

swap-perm : (xs : List ℕ) (i j : ℕ) → i < length xs → j < length xs → Perm (swap i j xs) xs
unfolding swap
swap-perm xs i j hi hj =
    let ys = set xs i (get_or xs j 0) in
    let second =
      subst (λ (v : ℕ). Perm (v ∷ set ys j (get_or xs i 0)) (get_or xs i 0 ∷ ys))
        (get_or-set xs i j hi)
        (set-perm ys j (get_or xs i 0) (omega (arith, length-set xs i (get_or xs j 0), hj))) in
    Perm.cons_inv (Perm.trans second (set-perm xs i (get_or xs j 0) hi))

shuffle-perm :
    (key block i : ℕ) (xs : List ℕ)
    → i < length xs
    → Perm (shuffle key block i xs) xs × (length (shuffle key block i xs) ≡ length xs)
unfolding shuffle
shuffle-perm key block zero xs h = (Perm.refl xs, refl)
shuffle-perm key block (suc i) xs h =
    let j = mix key block (suc i) % (i + 2) in
    let inside : j < length xs =
      omega (arith, mod-lt (mix key block (suc i)) {m = i + 2} (omega arith)) in
    let (later, len) =
      shuffle-perm key block i (swap (suc i) j xs) (omega (arith, length-swap (suc i) j xs)) in
    (Perm.trans later (swap-perm xs (suc i) j h inside), len ∙ length-swap (suc i) j xs)

length-iota : (start n : ℕ) → length (iota start n) ≡ n
length-iota start zero = refl
length-iota start (suc n) = ap suc (length-iota (start + 1) n)

map-iota {ℓ} :
    {A : Type ℓ} (f g : ℕ → A) (start n : ℕ)
    → ((p : ℕ) → p < start + n → f p ≡ g p)
    → map f (iota start n) ≡ map g (iota start n)
map-iota f g start zero same = refl
map-iota f g start (suc n) same =
    ap₂ ◌∷◌ (same start (omega arith))
      (map-iota f g (start + 1) n (λ p h. same p (omega (arith, h))))

get_or-front : (front xs : List ℕ) (x : ℕ) → get_or (front ++ x ∷ xs) (length front) 0 ≡ x
get_or-front [] xs x = refl
get_or-front (y ∷ front) xs x = get_or-front front xs x

map-get_or :
    (front xs : List ℕ)
    → map (λ (p : ℕ). get_or (front ++ xs) p 0) (iota (length front) (length xs)) ≡ xs
map-get_or front [] = refl
map-get_or front (x ∷ xs) = ap₂ ◌∷◌ (get_or-front front xs x) (
    ap₂ (λ (t : List ℕ) (k : ℕ). map (λ (p : ℕ). get_or t p 0) (iota k (length xs)))
      (sym (append_assoc front (x ∷ []) xs)) (sym (length-append front (x ∷ [])))
    ∙ map-get_or (front ++ x ∷ []) xs)

block_of-pos : (n b p : ℕ) → 0 < n → p < n → block_of (pos (b * n + p)) n ≡ b
unfolding block_of
block_of-pos n b p h lt =
    if-cases (λ q. q ≡ b) (ltb n 1) (λ small. absurd (ground (arith, small, h)))
      (λ _. mul-add-div_right h b p ∙ ap (λ (q : ℕ). b + q) (div-eq_of_lt lt) ∙ omega arith)

position_of-pos : (n b p : ℕ) → 0 < n → p < n → position_of (pos (b * n + p)) n ≡ p
unfolding position_of
position_of-pos n b p h lt =
    if-cases (λ q. q ≡ p) (ltb n 1) (λ small. absurd (ground (arith, small, h)))
      (λ _. mul-add-mod_self_right b n p ∙ mod-eq_of_lt lt)

-- The order of the arms in a block.
arms : ℕ → ℕ → ℕ → ℕ → List ℕ
arms seed book_key block n = shuffle (bit_xor seed book_key) block (n - 1) (iota 0 n)

arm_index-arms :
    (seed book_key block n p : ℕ)
    → 2 ≤ n
    → n ≤ max_arms
    → p < n
    → arm_index seed book_key (pos (block * n + p)) (pos n)
      ≡ get_or (arms seed book_key block n) p 0
unfolding arm_index arm_in arms
arm_index-arms seed book_key block n p low high lt =
    let key = bit_xor seed book_key in
    let spine = pos (block * n + p) in
    if-cases (λ a. a ≡ get_or (arms seed book_key block n) p 0) (leb n 1)
      (λ small. absurd (ground (arith, small, low)))
      (λ _.
        ap (arm_in seed book_key spine) {x = min n max_arms} {y = n} (omega arith)
        ∙ ap₂ (λ (b : ℕ) (q : ℕ). get_or (shuffle key b (n - 1) (iota 0 n)) q 0)
            (block_of-pos n block p (omega arith) lt) (position_of-pos n block p (omega arith) lt))

-- In each block of as many chapters as there are arms, each arm is assigned to one chapter.
pub arms-balanced :
    (seed book_key block n : ℕ)
    → 2 ≤ n
    → n ≤ max_arms
    → Perm
        (map (λ (p : ℕ). arm_index seed book_key (pos (block * n + p)) (pos n)) (iota 0 n))
        (iota 0 n)
unfolding arms
arms-balanced seed book_key block n low high =
    let order = arms seed book_key block n in
    let (perm, len) =
      shuffle-perm (bit_xor seed book_key) block (n - 1) (iota 0 n)
        (omega (arith, length-iota 0 n)) in
    let listed =
      map-iota (λ (p : ℕ). arm_index seed book_key (pos (block * n + p)) (pos n))
        (λ (p : ℕ). get_or order p 0) 0 n
        (λ p h. arm_index-arms seed book_key block n p low high (omega (arith, h)))
      ∙ ap (λ (k : ℕ). map (λ (p : ℕ). get_or order p 0) (iota 0 k)) (sym (len ∙ length-iota 0 n))
      ∙ map-get_or [] order in
    subst (λ (l : List ℕ). Perm l (iota 0 n)) (sym listed) perm
