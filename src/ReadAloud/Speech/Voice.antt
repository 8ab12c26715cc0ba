-- ===== src/ReadAloud/Speech/Voice.antt =====
-- What the speech engine and the highlight of a reader do with the actions of ios/ReadAloudCore.cpp.
use crosspoint_simulator.Prelude.{
  ℕ, Bool, true, false, List, [], ◌∷◌, ◌++◌, Option, none, some, ◌≡◌, refl,
}
use crosspoint_simulator.ReadAloud.Speech.{
  Action, start_utterance, stop_utterance, pause_utterance, resume_utterance, turn_page_forward,
  clear_highlight, set_highlight, State, speaking, paused, Core, Acted, Call, finished, canceled,
}

-- What the speech engine does.
pub data Voice : Type 0 where
  silent talking held : Voice

-- The engine and the range of the text that is highlighted.
abbrev pub View : Type 0
View = Voice × Option (ℕ × ℕ)

-- An action is one that the engine and the highlight can take, or there is no next view: speech starts
-- and pages turn while the engine is silent, it stops while there is an utterance, is paused while it
-- talks and goes on while it is held, and a highlight is cleared where there is one.
abbrev pub perform : Action → View → Option View
perform (start_utterance offset) (silent, lit) = some (talking, lit)
perform stop_utterance (talking, lit) = some (silent, lit)
perform stop_utterance (held, lit) = some (silent, lit)
perform pause_utterance (talking, lit) = some (held, lit)
perform resume_utterance (held, lit) = some (talking, lit)
perform turn_page_forward (silent, lit) = some (silent, lit)
perform (set_highlight offset len) (voice, lit) = some (voice, some (offset, len))
perform clear_highlight (voice, some range) = some (voice, none)
perform _ _ = none

abbrev pub perform_from : List Action → Option View → Option View
perform_from actions none = none
perform_from [] (some v) = some v
perform_from (action ∷ actions) (some v) = perform_from actions (perform action v)

-- What a callback of the engine says of it: a finished utterance is not talking any more, a cancelled one
-- is gone.
abbrev pub heard : Call → View → View
heard finished (talking, lit) = (silent, lit)
heard canceled (voice, lit) = (silent, lit)
heard _ v = v

abbrev pub voice_of : State → Voice
voice_of speaking = talking
voice_of paused = held
voice_of _ = silent

abbrev pub lit_of : Bool → ℕ → ℕ → Option (ℕ × ℕ)
lit_of true offset len = some (offset, len)
lit_of false offset len = none

-- The view that the state of the program stands for.
abbrev pub view_of : Core → View
view_of core =
    (voice_of core.state, lit_of core.highlight_active core.highlight_offset core.highlight_len)

-- The actions can be taken from the view, and lead to that of the new state.
abbrev pub Follows : View → Acted → Type 0
Follows v (out, core) = perform_from out (some v) ≡ some (view_of core)

pub perform-append :
    (xs ys : List Action) (v : Option View)
    → perform_from (xs ++ ys) v ≡ perform_from ys (perform_from xs v)
perform-append [] ys none = refl
perform-append [] ys (some v) = refl
perform-append (x ∷ xs) ys none = refl
perform-append (x ∷ xs) ys (some v) = perform-append xs ys (perform x v)
