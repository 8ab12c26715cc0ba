-- ===== src/Http/Dispatch/Cycle.antt =====
-- Until `stop` is called, every parked request is handled once and then closed.
use crosspoint_simulator.Prelude.{
  ◌>>=◌, Bool, true, false, List, [], ◌∷◌, ◌++◌, Option, none, some, ◌≡◌, arith, refl, append_assoc,
  subst, sym, ◌∙◌, append-nil, ap,
}
use crosspoint_simulator.Http.Request.{Parked}
use crosspoint_simulator.Http.Dispatch.{
  halted, accepting, waiting, Hub, Action, begin, park, handle_client, handlers_return, wake, stop,
  leave_loop, Event, ran, closed, act, run, initial,
}

-- The states before any `stop`: no worker, a worker that accepts, a request that is parked, one
-- whose handlers run, and one whose handlers have returned.
pub data Phase : Type 0 where
  off : Bool → Phase
  free : Bool → Phase
  parked_one : Parked → Phase
  handled : Parked → Phase
  returned : Parked → Phase

abbrev pub state : Phase → Hub
state (off d) = record {
  active = false;
  pending = false;
  done = d;
  abandoned = false;
  current = none;
  worker = halted;
  handling = false;
}
state (free d) = record {
  active = true;
  pending = false;
  done = d;
  abandoned = false;
  current = none;
  worker = accepting;
  handling = false;
}
state (parked_one q) = record {
  active = true;
  pending = true;
  done = false;
  abandoned = false;
  current = some q;
  worker = waiting;
  handling = false;
}
state (handled q) = record {
  active = true;
  pending = false;
  done = false;
  abandoned = false;
  current = some q;
  worker = waiting;
  handling = true;
}
state (returned q) = record {
  active = true;
  pending = false;
  done = true;
  abandoned = false;
  current = some q;
  worker = waiting;
  handling = false;
}

-- What is still to happen to the request in hand.
abbrev pub due : Phase → List Event
due (parked_one q) = ran (some q) ∷ closed (some q) ∷ []
due (handled q) = closed (some q) ∷ []
due (returned q) = closed (some q) ∷ []
due _ = []

-- Each request parked by the actions, handled and then closed.
abbrev pub cycles : List Action → List Event
cycles [] = []
cycles (park q ∷ acts) = ran (some q) ∷ closed (some q) ∷ cycles acts
cycles (_ ∷ acts) = cycles acts

abbrev pub runs_on : List Action → Bool
runs_on [] = true
runs_on (stop ∷ acts) = false
runs_on (_ ∷ acts) = runs_on acts

-- A result: the state is one of the phases, and what happened with what is still to happen is what
-- was to happen before with the cycles of the new requests.
abbrev pub Cycled : List Event → Option (Hub × List Event) → Type 0
Cycled expected none = Unit
Cycled expected (some (h, es)) = (p : Phase) × (h ≡ state p) × (es ++ due p ≡ expected)

step-Cycled :
    (p : Phase) (a : Action)
    → runs_on (a ∷ []) ≡ true
    → Cycled (due p ++ cycles (a ∷ [])) (act (state p) a)
unfolding act
step-Cycled (off d) begin h = (free d, refl, refl)
step-Cycled (off d) handle_client h = (off d, refl, refl)
step-Cycled (off d) (park q) h = tt
step-Cycled (off d) handlers_return h = tt
step-Cycled (off d) wake h = tt
step-Cycled (off d) leave_loop h = tt
step-Cycled (free d) begin h = (free d, refl, refl)
step-Cycled (free d) (park q) h = (parked_one q, refl, refl)
step-Cycled (free d) handle_client h = (free d, refl, refl)
step-Cycled (free d) handlers_return h = tt
step-Cycled (free d) wake h = tt
step-Cycled (free d) leave_loop h = tt
step-Cycled (parked_one q) begin h = (parked_one q, refl, refl)
step-Cycled (parked_one q) (park r) h = tt
step-Cycled (parked_one q) handle_client h = (handled q, refl, refl)
step-Cycled (parked_one q) handlers_return h = tt
step-Cycled (parked_one q) wake h = tt
step-Cycled (parked_one q) leave_loop h = tt
step-Cycled (handled q) begin h = (handled q, refl, refl)
step-Cycled (handled q) (park r) h = tt
step-Cycled (handled q) handle_client h = tt
step-Cycled (handled q) handlers_return h = (returned q, refl, refl)
step-Cycled (handled q) wake h = tt
step-Cycled (handled q) leave_loop h = tt
step-Cycled (returned q) begin h = (returned q, refl, refl)
step-Cycled (returned q) (park r) h = tt
step-Cycled (returned q) handle_client h = (returned q, refl, refl)
step-Cycled (returned q) handlers_return h = tt
step-Cycled (returned q) wake h = (free true, refl, refl)
step-Cycled (returned q) leave_loop h = tt
step-Cycled p stop h = ground arith

abbrev Goes : Phase → List Action → Type 0
Goes p acts = Cycled (due p ++ cycles acts) (run (state p) acts)

cycles-cons : (a : Action) (acts : List Action) → cycles (a ∷ acts) ≡ cycles (a ∷ []) ++ cycles acts
cycles-cons (park q) acts = refl
cycles-cons begin acts = refl
cycles-cons handle_client acts = refl
cycles-cons handlers_return acts = refl
cycles-cons wake acts = refl
cycles-cons stop acts = refl
cycles-cons leave_loop acts = refl

runs_on-tail :
    (a : Action) (acts : List Action)
    → runs_on (a ∷ acts) ≡ true
    → (runs_on (a ∷ []) ≡ true) × (runs_on acts ≡ true)
runs_on-tail begin acts h = (refl, h)
runs_on-tail (park q) acts h = (refl, h)
runs_on-tail handle_client acts h = (refl, h)
runs_on-tail handlers_return acts h = (refl, h)
runs_on-tail wake acts h = (refl, h)
runs_on-tail stop acts h = ground arith
runs_on-tail leave_loop acts h = (refl, h)

-- The results of one action and of the actions after it.
Cycled-append :
    (es before more : List Event) (p : Phase) (r : Option (Hub × List Event))
    → es ++ due p ≡ before
    → Cycled (due p ++ more) r
    → Cycled (before ++ more) (do (h, es') ← r; some (h, es ++ es'))
Cycled-append es before more p none e c = tt
Cycled-append es before more p (some (h, es')) e (q, s, d) = (
  q,
  s,
  append_assoc es es' (due q)
      ∙ ap (◌++◌ es) d
      ∙ sym (append_assoc es (due p) more)
      ∙ ap (λ b. b ++ more) e,
)

Cycled-after :
    (before more : List Event) (acts : List Action) (r : Option (Hub × List Event))
    → ((p : Phase) → Cycled (due p ++ more) (run (state p) acts))
    → Cycled before r
    → Cycled (before ++ more) (do (h, es) ← r; (h', es') ← run h acts; some (h', es ++ es'))
Cycled-after before more acts none go c = tt
Cycled-after before more acts (some (h, es)) go (p, s, d) =
    rw s (Cycled-append es before more p (run (state p) acts) d (go p))

run-Goes : (p : Phase) (acts : List Action) → runs_on acts ≡ true → Goes p acts
unfolding run
run-Goes p [] h = (p, refl, sym (append-nil (due p)))
run-Goes p (a ∷ acts) h =
    let t = runs_on-tail a acts h in
    rw (cycles-cons a acts, ← append_assoc (due p) (cycles (a ∷ [])) (cycles acts))
      (Cycled-after (due p ++ cycles (a ∷ [])) (cycles acts) acts (act (state p) a)
        (λ q. run-Goes q acts t.1) (step-Cycled p a t.0))

-- In every interleaving of the worker and the firmware's thread from a fresh server on, until `stop`
-- is called: the handlers run once for each parked request, on that request, and its connection is
-- closed only after they have returned. The last request may still have some of that to come.
pub run-cycles :
    (acts : List Action) (h : Hub) (es : List Event)
    → runs_on acts ≡ true
    → run initial acts ≡ some (h, es)
    → (p : Phase) × (h ≡ state p) × (es ++ due p ≡ cycles acts)
run-cycles acts h es r e = subst (Cycled (cycles acts)) e (run-Goes (off false) acts r)
