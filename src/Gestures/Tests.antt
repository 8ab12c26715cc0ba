-- ===== src/Gestures/Tests.antt =====
-- Gestures of ios/GestureBindings.h under some settings.
use crosspoint_simulator.Prelude.{◌≡◌, ◌≢◌, refl, true, false, pos, negsuc}
use crosspoint_simulator.Gestures.{
  finger_hold, finger_tap, above_paper, neither, nothing, power, right,
}
use crosspoint_simulator.Gestures.Rows.{row, rows}
use crosspoint_simulator.Gestures.Resolve.{
  is_zone_row, zone_gesture, global_gesture, is_offered, resolve, one_finger_action, zone_action,
  first_row, default_of, finger_fires_outside_zen,
}
use crosspoint_simulator.Gestures.Lookup.{is_global, one_finger_action-global}

hold_above : one_finger_action finger_hold above_paper false (pos 0) (pos 2) ≡ power
unfolding one_finger_action zone_action zone_gesture global_gesture resolve is_offered is_zone_row
    default_of row rows first_row finger_fires_outside_zen
hold_above = refl

tap : one_finger_action finger_tap neither true (pos 11) (negsuc 4) ≡ right
unfolding one_finger_action zone_action zone_gesture global_gesture resolve is_offered is_zone_row
    default_of row rows first_row finger_fires_outside_zen
tap = refl

one_finger_action-global_example :
    (is_global (one_finger_action finger_hold above_paper false (pos 0) (pos 2)) ≡ true)
    × (false ≡ false
        → one_finger_action finger_hold above_paper false (pos 0) (pos 2) ≢ nothing
        → (finger_hold ≡ finger_hold) × (above_paper ≡ above_paper))
one_finger_action-global_example =
    one_finger_action-global finger_hold above_paper false (pos 0) (pos 2)
