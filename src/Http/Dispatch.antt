-- ===== src/Http/Dispatch.antt =====
-- The hand-over of a request between the accept worker of src/WebServer.cpp and `handleClient`, on
-- the firmware's thread. An action is what one thread does under the mutex, so a list of them is an
-- interleaving; what is not possible in a state is `none`.
pub mod Cycle
pub mod Abandoned
use crosspoint_simulator.Prelude.{
  Bool, true, false, not, ◌||◌, List, [], ◌∷◌, ◌++◌, Option, none, some, if◌then◌else◌, ◌>>=◌,
}
use crosspoint_simulator.Http.Request.{Parked}

-- The worker's thread does not exist, accepts and parses, or waits for `dispatchCv`.
pub data Worker : Type 0 where
  halted accepting waiting : Worker

-- The members of `Impl` behind `dispatchMutex`, the request, and where the two threads are:
-- `handling` while `handleClient` runs the handlers.
pub record Hub : Type 0 where
  pub active : Bool
  pub pending : Bool
  pub done : Bool
  pub abandoned : Bool
  pub current : Option Parked
  pub worker : Worker
  pub handling : Bool

abbrev pub initial : Hub
initial = record {
  active = false;
  pending = false;
  done = false;
  abandoned = false;
  current = none;
  worker = halted;
  handling = false;
}

pub data Action : Type 0 where
  begin : Action
  park : Parked → Action
  handle_client : Action
  handlers_return : Action
  wake : Action
  stop : Action
  leave_loop : Action

-- The handlers run on the request that the members hold, if any; a connection is closed.
pub data Event : Type 0 where
  ran : Option Parked → Event
  closed : Option Parked → Event

abbrev Result : Type 0
Result = Option (Hub × List Event)

-- An active server has begun. A worker is started only when there is none: `stop` joins it.
unfoldable pub begin_from : Worker → Hub → Result
begin_from halted h =
    some (if h.active then h else record h { active = true; worker = accepting }, [])
begin_from _ h = if h.active then some (h, []) else none

unfoldable pub park_from : Worker → Parked → Hub → Result
park_from accepting q h =
    some (record h { pending = true; done = false; current = some q; worker = waiting }, [])
park_from _ q h = none

-- `handleClient` up to the call of the handlers; it is not called while they run.
unfoldable pub poll_from : Bool → Bool → Hub → Result
poll_from true pending h = none
poll_from false false h = some (h, [])
poll_from false true h = some (record h { pending = false; handling = true }, ran h.current ∷ [])

unfoldable pub return_from : Bool → Hub → Result
return_from true h = some (record h { done = true; handling = false }, [])
return_from false h = none

-- The wait is over: the socket is closed and the request reset.
unfoldable pub wake_from : Worker → Bool → Hub → Result
wake_from waiting true h =
    some (record h { current = none; worker = accepting }, closed h.current ∷ [])
wake_from _ _ h = none

unfoldable pub leave_from : Worker → Bool → Hub → Result
leave_from accepting false h = some (record h { worker = halted }, [])
leave_from _ _ h = none

unfoldable pub act : Hub → Action → Option (Hub × List Event)
unfolding begin_from park_from poll_from return_from wake_from leave_from
act h begin = begin_from h.worker h
act h (park q) = park_from h.worker q h
act h handle_client = poll_from h.handling h.pending h
act h handlers_return = return_from h.handling h
act h wake = wake_from h.worker (h.done || h.abandoned) h
act h stop = some (record h { active = false; abandoned = true }, [])
act h leave_loop = leave_from h.worker h.active h

unfoldable pub run : Hub → List Action → Option (Hub × List Event)
unfolding act
run h [] = some (h, [])
run h (a ∷ acts) = do (h', es) ← act h a; (h'', es') ← run h' acts; some (h'', es ++ es')
