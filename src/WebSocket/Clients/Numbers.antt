-- ===== src/WebSocket/Clients/Numbers.antt =====
-- Which number a client gets.
use crosspoint_simulator.Prelude.{
  ℕ, zero, suc, ◌+◌, ◌-◌, ◌%◌, ◌≤◌, ◌<◌, ◌≡◌, ◌≢◌, ◌⊎◌, refl, none, some, arith, if◌then◌else◌,
  lookup, lookup-insert, inl, inr, ◌==◌, Option-cases,
}
use crosspoint_simulator.WebSocket.Clients.{Impl, bump, add_loop, add_client}

-- Number `next_client + k` is in use.
abbrev Taken : Impl → ℕ → Type 0
Taken s k = lookup ((s.next_client + k) % 256) s.clients ≢ none

Taken-zero : (s : Impl) → s.next_client < 256 → lookup s.next_client s.clients ≢ none → Taken s 0
Taken-zero s h t = let e : (s.next_client + 0) % 256 ≡ s.next_client = omega arith in rw e t

Taken-suc : (s : Impl) (k : ℕ) → Taken (bump s) k → Taken s (suc k)
Taken-suc s k t =
    let e : (s.next_client + suc k) % 256 ≡ ((s.next_client + 1) % 256 + k) % 256 = omega arith in
    rw e t

all-Taken :
    (s : Impl) (n : ℕ)
    → s.next_client < 256
    → lookup s.next_client s.clients ≢ none
    → ((k : ℕ) → k ≤ n → Taken (bump s) k)
    → (k : ℕ) → k ≤ suc n
    → Taken s k
all-Taken s n h t rest zero b = Taken-zero s h t
all-Taken s n h t rest (suc k) b = Taken-suc s k (rest k (omega arith))

-- The loop finds a free number among those it tries, or all of them are in use.
add_loop-free :
    (tries : ℕ) (s : Impl) (fd : ℕ)
    → s.next_client < 256
    → (lookup (add_loop tries s fd).0 s.clients ≡ none) ⊎ ((k : ℕ) → k ≤ tries → Taken s k)
unfolding add_loop
add_loop-free zero s fd h = elim (Option-cases (lookup s.next_client s.clients)) [
  | inl e ↦ inl e
  | inr (v, e) ↦ inr λ k b. let z : k ≡ 0 = omega arith in rw z (Taken-zero s h (λ f. cc))
]
add_loop-free (suc tries) s fd h = elim (Option-cases (lookup s.next_client s.clients)) [
  | inl e ↦ inl (rw (e, add_loop) e)
  | inr (v, e) ↦ elim (add_loop-free tries (bump s) fd (omega arith)) [
    | inl free ↦ inl (rw (e, add_loop) free)
    | inr rest ↦ inr (all-Taken s tries h (λ f. cc) rest)
  ]
]

-- The client is entered under the number returned; all other entries stay, and the next number
-- is again a byte.
abbrev Enters : Impl → ℕ → ℕ × Impl → Type 0
Enters s fd (num, t) =
    (num < 256)
    × (t.next_client < 256)
    × (t.pending_events ≡ s.pending_events)
    × ((j : ℕ) → lookup j t.clients ≡ (if j == num then some fd else lookup j s.clients))

add_loop-Enters :
    (tries : ℕ) (s : Impl) (fd : ℕ) → s.next_client < 256 → Enters s fd (add_loop tries s fd)
unfolding add_loop
add_loop-Enters zero s fd h =
    (h, omega arith, refl, λ j. lookup-insert s.next_client j fd s.clients)
add_loop-Enters (suc tries) s fd h = elim (Option-cases (lookup s.next_client s.clients)) [
  | inl e ↦ rw (e, add_loop) (h, omega arith, refl, λ j. lookup-insert s.next_client j fd s.clients)
  | inr (v, e) ↦ rw (e, add_loop) (add_loop-Enters tries (bump s) fd (omega arith))
]

-- While a number of the 256 is free, a new client gets a free one, also by the line behind the
-- loop of 255 rounds: no client loses its entry.
add_client-free :
    (s : Impl) (fd free : ℕ)
    → s.next_client < 256
    → free < 256
    → lookup free s.clients ≡ none
    → (lookup (add_client s fd).0 s.clients ≡ none) × Enters s fd (add_client s fd)
unfolding add_client
add_client-free s fd free h b e = elim (add_loop-free 255 s fd h) [
  | inl found ↦ (found, add_loop-Enters 255 s fd h)
  | inr full ↦
      let k : ℕ = (free + 256 - s.next_client) % 256 in
      let same : (s.next_client + k) % 256 ≡ free = omega arith in
      absurd (full k (omega arith) (rw same e))
]
