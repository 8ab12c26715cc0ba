-- ===== src/ReadAloud/Tests.antt =====
-- Runs of the page channel.
use crosspoint_simulator.Prelude.{List, [], ◌∷◌, codes, some, none, true, arith, refl, ◌≡◌, false}
use crosspoint_simulator.ReadAloud.{initial}
use crosspoint_simulator.ReadAloud.Inbox.{
  Action, publishing, consuming, peeking, rebooting, peeker_want, Content, consumed, peeked,
  channel-inbox,
}

abbrev actions : List Action
actions =
    peeker_want true
    ∷ publishing (some (codes "one")) [] 10
    ∷ publishing (some (codes "two")) [] 20
    ∷ peeking
    ∷ peeking
    ∷ consuming
    ∷ consuming
    ∷ publishing none [] 30
    ∷ rebooting
    ∷ consuming
    ∷ peeking
    ∷ []

abbrev two : Content
two = record { utf8 = codes "two"; rects = []; cleared = false; published_at_ms = 20 }

consumed-actions : consumed initial 0 actions ≡ two ∷ []
unfolding consumed
consumed-actions = refl

peeked-actions : peeked initial 0 actions ≡ two ∷ []
unfolding peeked
peeked-actions = refl

channel-inbox_example :
    (consumed initial 0 actions ≡ two ∷ []) × (peeked initial 0 actions ≡ two ∷ [])
channel-inbox_example = channel-inbox actions (omega arith)
