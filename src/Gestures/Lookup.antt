-- ===== src/Gestures/Lookup.antt =====
-- The rows of ios/GestureBindings.h are found by what they say.
use crosspoint_simulator.Prelude.{
  Bool-cases, subst, sym, inl, inr, ◌≡◌, ◌≢◌, refl, Bool, true, false, not, arith, ◌&&◌, ◌||◌, any,
  ℤ, pos, negsuc, if-cases,
}
use crosspoint_simulator.Gestures.{
  Action, Gesture, OneFinger, Zone, no_gesture, no_finger, action_code, inherit, finger_hold,
  above_paper, nothing,
}
use crosspoint_simulator.Gestures.Rows.{rows, row, global_actions}
use crosspoint_simulator.Gestures.Resolve.{
  is_zone_row, default_of, is_code, is_offered, action_in, all_actions, resolve, first_row,
  global_gesture, zone_gesture, or_nothing, or_global, zone_action, one_finger_action,
  finger_fires_outside_zen,
}

abbrev pub is_finger : OneFinger → Bool
is_finger no_finger = false
is_finger _ = true

-- The row of a gesture is that of the gesture, and a gesture with one finger is the one that is found for
-- its kind and its zone, or for its kind where it has no zone.
row-Found :
    (g : Gesture)
    → ((row g).gesture ≡ g)
      × (is_zone_row g ≡ true → zone_gesture (row g).kind (row g).zone ≡ g)
      × (is_zone_row g ≡ false → is_finger (row g).kind ≡ true → global_gesture (row g).kind ≡ g)
unfolding row rows is_zone_row zone_gesture global_gesture first_row
row-Found g = ground arith

default-offered : (g : Gesture) → is_offered g (pos (action_code (default_of g))) ≡ true
unfolding row rows is_offered is_zone_row default_of
default-offered g = ground arith

known-code :
    (stored : ℤ)
    → (is_code stored inherit || any (is_code stored) global_actions) ≡ true
    → pos (action_code (action_in stored all_actions)) ≡ stored
known-code (negsuc n) h = ground (arith, h)
known-code (pos n) h = ground (arith, h)

offered-code :
    (g : Gesture) (stored : ℤ)
    → is_offered g stored ≡ true
    → (is_code stored inherit || any (is_code stored) global_actions) ≡ true
unfolding is_offered
offered-code g stored h = ground (arith, h)

-- A stored number that the settings offer for a gesture is the action of that number, and the action of
-- any other is one that they offer.
resolve-Offered :
    (g : Gesture) (stored : ℤ)
    → (is_offered g stored ≡ true → pos (action_code (resolve g stored)) ≡ stored)
      × (is_offered g (pos (action_code (resolve g stored))) ≡ true)
unfolding resolve
resolve-Offered g stored = elim (Bool-cases (is_offered g stored)) [
  | inl o ↦
      let same = known-code stored (offered-code g stored o) in
      rw o (λ _. same, subst (λ (s : ℤ). is_offered g s ≡ true) (sym same) o)
  | inr n ↦ rw n (λ o. absurd (cc o), default-offered g)
]

-- An action that a row without a zone offers.
abbrev pub is_global : Action → Bool
is_global a = any (is_code (pos (action_code a))) global_actions

offered-global :
    (g : Gesture) (a : Action)
    → is_offered g (pos (action_code a)) ≡ true
    → is_global (or_nothing a) ≡ true
unfolding is_offered
offered-global g a h = ground (arith, h)

or_nothing-global : (g : Gesture) (stored : ℤ) → is_global (or_nothing (resolve g stored)) ≡ true
or_nothing-global g stored = offered-global g (resolve g stored) (resolve-Offered g stored).1

or_global-global :
    (x a : Action)
    → is_global (or_nothing x) ≡ true
    → is_global (or_nothing a) ≡ true
    → is_global (or_global x a) ≡ true
or_global-global x a h k = ground (arith, h, k)

zone_action-global :
    (g : Gesture) (stored : ℤ) → is_global (or_nothing (zone_action g stored)) ≡ true
unfolding zone_action
zone_action-global no_gesture stored = refl
zone_action-global g stored = or_nothing-global g stored

fires-hold :
    (k : OneFinger) (z : Zone)
    → finger_fires_outside_zen k z ≡ true
    → (k ≡ finger_hold) × (z ≡ above_paper)
unfolding finger_fires_outside_zen zone_gesture first_row rows
fires-hold k z h = ground (arith, h)

-- Whatever is stored, a gesture of one finger does what a row without a zone offers, so neither inherits
-- nor is unset; and outside zen mode it does nothing but for a hold above the paper.
pub one_finger_action-global :
    (k : OneFinger) (z : Zone) (zen_on : Bool) (zone_stored global_stored : ℤ)
    → (is_global (one_finger_action k z zen_on zone_stored global_stored) ≡ true)
      × (zen_on ≡ false
          → one_finger_action k z zen_on zone_stored global_stored ≢ nothing
          → (k ≡ finger_hold) × (z ≡ above_paper))
unfolding one_finger_action
one_finger_action-global k z zen_on zone_stored global_stored =
    let fires = not zen_on && not (finger_fires_outside_zen k z) in
    let zone = zone_action (zone_gesture k z) zone_stored in
    let global = resolve (global_gesture k) global_stored in
    (
      if-cases (λ a. is_global a ≡ true) fires (λ _. refl)
          (λ _.
            or_global-global zone global (zone_action-global (zone_gesture k z) zone_stored)
              (or_nothing-global (global_gesture k) global_stored)),
      λ off.
          if-cases (λ a. a ≢ nothing → (k ≡ finger_hold) × (z ≡ above_paper)) fires
            (λ _ some. absurd (some refl)) (λ on _. fires-hold k z (ground (arith, off, on))),
    )
