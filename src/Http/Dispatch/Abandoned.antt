-- ===== src/Http/Dispatch/Abandoned.antt =====
-- After a `stop`, the server does not keep its requests for their handlers, even if it is started
-- again.
use crosspoint_simulator.Prelude.{
  ◌>>=◌, ◌++◌, Bool, true, false, List, [], ◌∷◌, Option, none, some, ◌>>=◌, ◌≡◌, if-cases, refl,
  subst, ◌||◌,
}
use crosspoint_simulator.Http.Request.{Parked}
use crosspoint_simulator.Http.Dispatch.{
  Worker, halted, accepting, waiting, Hub, Action, begin, park, handle_client, handlers_return,
  wake, stop, leave_loop, Event, closed, act, run, begin_from, wake_from, leave_from, return_from,
  park_from, poll_from,
}

-- Every result keeps the flag.
abbrev Stays : Option (Hub × List Event) → Type 0
Stays none = Unit
Stays (some (h, es)) = h.abandoned ≡ true

added :
    (es : List Event) (r : Option (Hub × List Event))
    → Stays r
    → Stays (do (h, es') ← r; some (h, es ++ es'))
added es none k = tt
added es (some (h, es')) k = k

begin-Stays : (w : Worker) (h : Hub) → h.abandoned ≡ true → Stays (begin_from w h)
unfolding begin_from
begin-Stays halted h k = if-cases (λ (g : Hub). g.abandoned ≡ true) h.active (λ _. k) (λ _. k)
begin-Stays accepting h k = if-cases Stays h.active (λ _. k) (λ _. tt)
begin-Stays waiting h k = if-cases Stays h.active (λ _. k) (λ _. tt)

park-Stays : (w : Worker) (q : Parked) (h : Hub) → h.abandoned ≡ true → Stays (park_from w q h)
unfolding park_from
park-Stays accepting q h k = k
park-Stays halted q h k = tt
park-Stays waiting q h k = tt

poll-Stays : (b p : Bool) (h : Hub) → h.abandoned ≡ true → Stays (poll_from b p h)
unfolding poll_from
poll-Stays true p h k = tt
poll-Stays false false h k = k
poll-Stays false true h k = k

return-Stays : (b : Bool) (h : Hub) → h.abandoned ≡ true → Stays (return_from b h)
unfolding return_from
return-Stays true h k = k
return-Stays false h k = tt

wake-Stays : (w : Worker) (b : Bool) (h : Hub) → h.abandoned ≡ true → Stays (wake_from w b h)
unfolding wake_from
wake-Stays waiting true h k = k
wake-Stays waiting false h k = tt
wake-Stays halted b h k = tt
wake-Stays accepting b h k = tt

leave-Stays : (w : Worker) (b : Bool) (h : Hub) → h.abandoned ≡ true → Stays (leave_from w b h)
unfolding leave_from
leave-Stays accepting false h k = k
leave-Stays accepting true h k = tt
leave-Stays halted b h k = tt
leave-Stays waiting b h k = tt

act-Stays : (h : Hub) (a : Action) → h.abandoned ≡ true → Stays (act h a)
unfolding act
act-Stays h begin k = begin-Stays h.worker h k
act-Stays h (park q) k = park-Stays h.worker q h k
act-Stays h handle_client k = poll-Stays h.handling h.pending h k
act-Stays h handlers_return k = return-Stays h.handling h k
act-Stays h wake k = wake-Stays h.worker (h.done || h.abandoned) h k
act-Stays h stop k = refl
act-Stays h leave_loop k = leave-Stays h.worker h.active h k

stop-Stays : (h : Hub) → Stays (act h stop)
unfolding act
stop-Stays h = refl

after-Stays :
    (acts : List Action) (r : Option (Hub × List Event))
    → ((h : Hub) → h.abandoned ≡ true → Stays (run h acts))
    → Stays r
    → Stays (do (h, es) ← r; (h', es') ← run h acts; some (h', es ++ es'))
after-Stays acts none go k = tt
after-Stays acts (some (h, es)) go k = added es (run h acts) (go h k)

run-Stays : (h : Hub) (acts : List Action) → h.abandoned ≡ true → Stays (run h acts)
unfolding run
run-Stays h [] k = k
run-Stays h (a ∷ acts) k = after-Stays acts (act h a) (λ g. run-Stays g acts) (act-Stays h a k)

park-wake :
    (h : Hub) (q : Parked)
    → h.worker ≡ accepting
    → h.abandoned ≡ true
    → (g : Hub) × (run h (park q ∷ wake ∷ []) ≡ some (g, closed (some q) ∷ []))
unfolding run park_from wake_from
park-wake h q w k = (
  record h { pending = true; done = false; current = none; worker = accepting },
  simp (w, k) refl,
)

-- The flag that `stop` sets is never cleared: whatever happens after a call of `stop`, a new start
-- of the server included, the worker can close the connection of a request that it parks before any
-- handler has run.
pub stop-park-wake :
    (before after : Hub) (acts : List Action) (es : List Event) (q : Parked)
    → run before (stop ∷ acts) ≡ some (after, es)
    → after.worker ≡ accepting
    → (g : Hub) × (run after (park q ∷ wake ∷ []) ≡ some (g, closed (some q) ∷ []))
unfolding run
stop-park-wake before after acts es q r w =
    park-wake after q w (
      subst Stays r
        (after-Stays acts (act before stop) (λ g. run-Stays g acts) (stop-Stays before)))
