-- ===== src/WebSocket/Clients/Queue.antt =====
-- The event queue between the client threads and the firmware's loop.
use crosspoint_simulator.Prelude.{
  ℕ, ◌≡◌, refl, sym, ap, ◌∙◌, Bool, true, false, List, [], ◌∷◌, ◌++◌, append_assoc, append-nil,
  zero, suc, arith,
}
use crosspoint_simulator.WebSocket.Session.{Event}
use crosspoint_simulator.WebSocket.Clients.{
  Impl, add_client, remove_client, push_event, loop, bump, add_loop,
}

-- One critical section of a client thread, or one call of `loop` with a callback or without.
pub data Action : Type 0 where
  adds removes : ℕ → Action
  pushes : Event → Action
  loops : Bool → Action

-- The events that the callback gets in one action, and the state behind it.
unfoldable pub act : Impl → Action → List Event × Impl
act s (adds fd) = ([], (add_client s fd).1)
act s (removes num) = ([], remove_client s num)
act s (pushes e) = ([], push_event s e)
act s (loops set) = loop set s

unfoldable pub run : Impl → List Action → List Event × Impl
unfolding act
run s [] = ([], s)
run s (x ∷ xs) = let (now, t) = act s x in let (later, u) = run t xs in (now ++ later, u)

abbrev pub pushed : List Action → List Event
pushed [] = []
pushed (pushes e ∷ xs) = e ∷ pushed xs
pushed (adds _ ∷ xs) = pushed xs
pushed (removes _ ∷ xs) = pushed xs
pushed (loops _ ∷ xs) = pushed xs

-- What one action pushes.
abbrev pushed_by : Action → List Event
pushed_by (pushes e) = e ∷ []
pushed_by _ = []

add_loop-pending :
    (tries : ℕ) (s : Impl) (fd : ℕ) → (add_loop tries s fd).1.pending_events ≡ s.pending_events
unfolding add_loop
add_loop-pending zero s fd = refl
add_loop-pending (suc tries) s fd = ground (arith, add_loop-pending tries (bump s) fd)

act-order :
    (s : Impl) (x : Action)
    → (act s x).0 ++ (act s x).1.pending_events ≡ s.pending_events ++ pushed_by x
unfolding act add_client remove_client push_event loop
act-order s (adds fd) = add_loop-pending 255 s fd ∙ sym (append-nil s.pending_events)
act-order s (removes num) = sym (append-nil s.pending_events)
act-order s (pushes e) = refl
act-order s (loops true) = refl
act-order s (loops false) = sym (append-nil s.pending_events)

pushed-cons : (x : Action) (xs : List Action) → pushed (x ∷ xs) ≡ pushed_by x ++ pushed xs
pushed-cons (adds fd) xs = refl
pushed-cons (removes num) xs = refl
pushed-cons (pushes e) xs = refl
pushed-cons (loops set) xs = refl

-- In every interleaving of the client threads and the firmware's loop the callback gets the events
-- that were pushed, each once and in the order of the pushes; what it has not got is still queued.
run-order :
    (s : Impl) (xs : List Action)
    → (run s xs).0 ++ (run s xs).1.pending_events ≡ s.pending_events ++ pushed xs
unfolding run
run-order s [] = sym (append-nil s.pending_events)
run-order s (x ∷ xs) =
    let (now, t) = act s x in
    append_assoc now (run t xs).0 (run t xs).1.pending_events
    ∙ ap (◌++◌ now) (run-order t xs)
    ∙ sym (append_assoc now t.pending_events (pushed xs))
    ∙ ap (λ (l : List Event). l ++ pushed xs) (act-order s x)
    ∙ append_assoc s.pending_events (pushed_by x) (pushed xs)
    ∙ ap (◌++◌ s.pending_events) (sym (pushed-cons x xs))
