-- ===== src/Gestures/Resolve.antt =====
-- What a gesture of ios/GestureBindings.h does under the stored settings.
use crosspoint_simulator.Prelude.{
  ℕ, Bool, true, false, List, [], ◌∷◌, ◌&&◌, not, ltb, ◌==◌, if◌then◌else◌, Option, none, some, any,
  ℤ, pos, negsuc,
}
use crosspoint_simulator.Gestures.{
  Action, Zone, OneFinger, Family, Group, Gesture, unset, nothing, back, confirm, left, right, up,
  down, power, toggle_zen, font_family_step, inherit, font_family_step_back, open_action_menu,
  full_refresh, above_paper, neither, below_paper, left_margin, no_finger, family_shake,
  family_button, family_tilt, group_one_finger, group_two_fingers, group_device, group_above_paper,
  group_below_paper, group_left_margin, gesture_shake, gesture_hold_above, no_gesture, action_code,
  zone_code, finger_code, Row,
}
use crosspoint_simulator.Gestures.Rows.{global_actions, rows, row}

abbrev pub is_zone : Zone → Bool
is_zone neither = false
is_zone _ = true

unfoldable pub is_zone_row : Gesture → Bool
unfolding row
is_zone_row g = is_zone (row g).zone

abbrev pub is_device : Family → Bool
is_device family_shake = true
is_device family_button = true
is_device family_tilt = true
is_device _ = false

abbrev pub group_in : Zone → Family → ℕ → Group
group_in above_paper family fingers = group_above_paper
group_in below_paper family fingers = group_below_paper
group_in left_margin family fingers = group_left_margin
group_in neither family fingers =
    if is_device family
    then group_device
    else if ltb 1 fingers
    then group_two_fingers
    else group_one_finger

unfoldable pub group_of : Gesture → Group
unfolding row
group_of g = group_in (row g).zone (row g).family (row g).fingers

unfoldable pub default_of : Gesture → Action
unfolding row
default_of g = (row g).default_action

unfoldable pub ships_inert : Gesture → Bool
unfolding is_zone_row default_of
ships_inert no_gesture = false
ships_inert g = not (is_zone_row g) && (action_code (default_of g) == action_code nothing)

-- A stored number is that of an action.
abbrev pub is_code : ℤ → Action → Bool
is_code (negsuc n) action = false
is_code (pos n) action = action_code action == n

unfoldable pub is_offered : Gesture → ℤ → Bool
unfolding is_zone_row
is_offered g stored =
    if is_code stored inherit then is_zone_row g else any (is_code stored) global_actions

-- The cast of a number that is one of an action.
abbrev pub action_in : ℤ → List Action → Action
action_in stored [] = nothing
action_in stored (action ∷ actions) =
    let rest = action_in stored actions in if is_code stored action then action else rest

abbrev pub all_actions : List Action
all_actions =
    unset ∷ nothing ∷ back ∷ confirm ∷ left ∷ right ∷ up ∷ down ∷ power ∷ toggle_zen
    ∷ font_family_step ∷ inherit ∷ font_family_step_back ∷ open_action_menu ∷ full_refresh ∷ []

unfoldable pub resolve : Gesture → ℤ → Action
unfolding is_offered default_of
resolve g stored = if not (is_offered g stored) then default_of g else action_in stored all_actions

-- The first row of a kind in a zone.
unfoldable pub first_row : OneFinger → Zone → List Row → Gesture
first_row k z [] = no_gesture
first_row k z (r ∷ rs) =
    let rest = first_row k z rs in
    if (finger_code r.kind == finger_code k) && (zone_code r.zone == zone_code z)
    then r.gesture
    else rest

unfoldable pub global_gesture : OneFinger → Gesture
unfolding first_row rows
global_gesture no_finger = no_gesture
global_gesture k = first_row k neither rows

unfoldable pub zone_gesture : OneFinger → Zone → Gesture
unfolding first_row rows
zone_gesture k neither = no_gesture
zone_gesture no_finger z = no_gesture
zone_gesture k z = first_row k z rows

unfoldable pub zone_row_for : Gesture → Zone → Gesture
unfolding row zone_gesture
zone_row_for global_row z = zone_gesture (row global_row).kind z

abbrev pub fires_outside_zen : Gesture → Bool
fires_outside_zen gesture_hold_above = true
fires_outside_zen gesture_shake = true
fires_outside_zen _ = false

abbrev pub is_gesture : Gesture → Bool
is_gesture no_gesture = false
is_gesture _ = true

unfoldable pub finger_fires_outside_zen : OneFinger → Zone → Bool
unfolding zone_gesture
finger_fires_outside_zen k z = let zg = zone_gesture k z in is_gesture zg && fires_outside_zen zg

abbrev pub or_nothing : Action → Action
or_nothing inherit = nothing
or_nothing action = action

unfoldable pub action_for : Gesture → Bool → ℤ → Action
unfolding resolve
action_for g zen_on stored =
    if not zen_on && not (fires_outside_zen g) then nothing else or_nothing (resolve g stored)

unfoldable pub zone_action : Gesture → ℤ → Action
unfolding resolve
zone_action no_gesture stored = inherit
zone_action g stored = resolve g stored

abbrev pub or_global : Action → Action → Action
or_global inherit global = or_nothing global
or_global action global = action

unfoldable pub one_finger_action : OneFinger → Zone → Bool → ℤ → ℤ → Action
unfolding finger_fires_outside_zen zone_action zone_gesture global_gesture resolve
one_finger_action k z zen_on zone_stored global_stored =
    if not zen_on && not (finger_fires_outside_zen k z)
    then nothing
    else or_global (zone_action (zone_gesture k z) zone_stored)
        (resolve (global_gesture k) global_stored)

abbrev pub button_for : Action → Option ℕ
button_for back = some 0
button_for confirm = some 1
button_for left = some 2
button_for right = some 3
button_for up = some 4
button_for down = some 5
button_for power = some 6
button_for _ = none
