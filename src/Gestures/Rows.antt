-- ===== src/Gestures/Rows.antt =====
-- The table of gestures of ios/GestureBindings.h, and the actions that a row offers.
use crosspoint_simulator.Prelude.{ℕ, List, [], ◌∷◌, get_or, Bytes, codes}
use crosspoint_simulator.Gestures.{
  Action, Zone, OneFinger, Family, Dir, Gesture, nothing, back, confirm, left, right, up, down,
  power, toggle_zen, font_family_step, inherit, font_family_step_back, open_action_menu,
  full_refresh, above_paper, neither, below_paper, left_margin, finger_tap, finger_swipe_left,
  finger_swipe_right, finger_swipe_up, finger_swipe_down, finger_hold, no_finger, family_tap,
  family_swipe, family_long_press, family_pinch, family_shake, family_button, family_tilt, dir_none,
  dir_left, dir_right, dir_up, dir_down, gesture_tap_global, gesture_swipe_left_global,
  gesture_swipe_right_global, gesture_swipe_up_global, gesture_swipe_down_global,
  gesture_hold_global, gesture_two_finger_tap, gesture_two_finger_swipe_left,
  gesture_two_finger_swipe_right, gesture_two_finger_swipe_up, gesture_two_finger_swipe_down,
  gesture_two_finger_hold, gesture_pinch, gesture_spread, gesture_shake, gesture_volume_up,
  gesture_volume_down, gesture_tilt_left, gesture_tilt_right, gesture_tilt_forward,
  gesture_tilt_back, gesture_tap_above, gesture_swipe_left_above, gesture_swipe_right_above,
  gesture_swipe_up_above, gesture_hold_above, gesture_tap_below, gesture_swipe_left_below,
  gesture_swipe_right_below, gesture_swipe_up_below, gesture_swipe_down_below, gesture_hold_below,
  gesture_tap_left_margin, gesture_swipe_left_left_margin, gesture_swipe_right_left_margin,
  gesture_swipe_up_left_margin, gesture_swipe_down_left_margin, gesture_hold_left_margin,
  no_gesture, gesture_code, Row,
}

abbrev pub make_row :
    Gesture → Family → ℕ → Dir → OneFinger → Zone → Bytes → Bytes → Bytes → Action → Row
make_row g f n d k z key name title action = record {
  gesture = g;
  family = f;
  fingers = n;
  dir = d;
  kind = k;
  zone = z;
  key = key;
  name = name;
  title = title;
  default_action = action;
}

abbrev pub global_actions : List Action
global_actions =
    nothing ∷ back ∷ confirm ∷ left ∷ right ∷ up ∷ down ∷ power ∷ toggle_zen ∷ font_family_step
    ∷ font_family_step_back ∷ open_action_menu ∷ full_refresh ∷ []

abbrev pub zone_actions : List Action
zone_actions =
    inherit ∷ nothing ∷ back ∷ confirm ∷ left ∷ right ∷ up ∷ down ∷ power ∷ toggle_zen
    ∷ font_family_step ∷ font_family_step_back ∷ open_action_menu ∷ full_refresh ∷ []

unfoldable pub rows : List Row
rows =
    make_row gesture_tap_global family_tap 1 dir_none finger_tap neither (codes "gestureTap")
      (codes "tap") (codes "Tap") right
    ∷ make_row gesture_swipe_left_global family_swipe 1 dir_left finger_swipe_left neither
        (codes "gestureSwipeLeft") (codes "swipe left") (codes "Swipe Left") right
    ∷ make_row gesture_swipe_right_global family_swipe 1 dir_right finger_swipe_right neither
        (codes "gestureSwipeRight") (codes "swipe right") (codes "Swipe Right") left
    ∷ make_row gesture_swipe_up_global family_swipe 1 dir_up finger_swipe_up neither
        (codes "gestureSwipeUp") (codes "swipe up") (codes "Swipe Up") back
    ∷ make_row gesture_swipe_down_global family_swipe 1 dir_down finger_swipe_down neither
        (codes "gestureSwipeDown") (codes "swipe down") (codes "Swipe Down") confirm
    ∷ make_row gesture_hold_global family_long_press 1 dir_none finger_hold neither
        (codes "gestureHold") (codes "hold") (codes "Hold") confirm
    ∷ make_row gesture_two_finger_tap family_tap 2 dir_none no_finger neither
        (codes "gestureTwoFingerTap") (codes "2-finger tap") (codes "Tap") confirm
    ∷ make_row gesture_two_finger_swipe_left family_swipe 2 dir_left no_finger neither
        (codes "gestureTwoFingerSwipeLeft") (codes "2-finger swipe left") (codes "Swipe Left") down
    ∷ make_row gesture_two_finger_swipe_right family_swipe 2 dir_right no_finger neither
        (codes "gestureTwoFingerSwipeRight") (codes "2-finger swipe right") (codes "Swipe Right") up
    ∷ make_row gesture_two_finger_swipe_up family_swipe 2 dir_up no_finger neither
        (codes "gestureTwoFingerSwipeUp") (codes "2-finger swipe up") (codes "Swipe Up") back
    ∷ make_row gesture_two_finger_swipe_down family_swipe 2 dir_down no_finger neither
        (codes "gestureTwoFingerSwipeDown") (codes "2-finger swipe down") (codes "Swipe Down")
        confirm
    ∷ make_row gesture_two_finger_hold family_long_press 2 dir_none no_finger neither
        (codes "gestureTwoFingerHold") (codes "2-finger hold") (codes "Hold") font_family_step
    ∷ make_row gesture_pinch family_pinch 2 dir_none no_finger neither (codes "gesturePinch")
        (codes "pinch") (codes "Pinch") up
    ∷ make_row gesture_spread family_pinch 2 dir_none no_finger neither (codes "gestureSpread")
        (codes "spread") (codes "Spread") down
    ∷ make_row gesture_shake family_shake 0 dir_none no_finger neither (codes "gestureShake")
        (codes "shake") (codes "Shake") toggle_zen
    ∷ make_row gesture_volume_up family_button 0 dir_none no_finger neither
        (codes "gestureVolumeUp") (codes "volume up") (codes "Volume Up") right
    ∷ make_row gesture_volume_down family_button 0 dir_none no_finger neither
        (codes "gestureVolumeDown") (codes "volume down") (codes "Volume Down") left
    ∷ make_row gesture_tilt_left family_tilt 0 dir_left no_finger neither (codes "gestureTiltLeft")
        (codes "tilt left") (codes "Tilt Left") nothing
    ∷ make_row gesture_tilt_right family_tilt 0 dir_right no_finger neither
        (codes "gestureTiltRight") (codes "tilt right") (codes "Tilt Right") nothing
    ∷ make_row gesture_tilt_forward family_tilt 0 dir_up no_finger neither
        (codes "gestureTiltForward") (codes "tilt forward") (codes "Tilt Forward") nothing
    ∷ make_row gesture_tilt_back family_tilt 0 dir_down no_finger neither (codes "gestureTiltBack")
        (codes "tilt back") (codes "Tilt Back") nothing
    ∷ make_row gesture_tap_above family_tap 1 dir_none finger_tap above_paper
        (codes "gestureTapAbove") (codes "tap above the paper") (codes "Tap") inherit
    ∷ make_row gesture_swipe_left_above family_swipe 1 dir_left finger_swipe_left above_paper
        (codes "gestureSwipeLeftAbove") (codes "swipe left above the paper") (codes "Swipe Left")
        inherit
    ∷ make_row gesture_swipe_right_above family_swipe 1 dir_right finger_swipe_right above_paper
        (codes "gestureSwipeRightAbove") (codes "swipe right above the paper") (codes "Swipe Right")
        inherit
    ∷ make_row gesture_swipe_up_above family_swipe 1 dir_up finger_swipe_up above_paper
        (codes "gestureSwipeUpAbove") (codes "swipe up above the paper") (codes "Swipe Up") inherit
    ∷ make_row gesture_hold_above family_long_press 1 dir_none finger_hold above_paper
        (codes "gestureHoldAbove") (codes "hold above the paper") (codes "Hold") power
    ∷ make_row gesture_tap_below family_tap 1 dir_none finger_tap below_paper
        (codes "gestureTapBelow") (codes "tap below the paper") (codes "Tap") inherit
    ∷ make_row gesture_swipe_left_below family_swipe 1 dir_left finger_swipe_left below_paper
        (codes "gestureSwipeLeftBelow") (codes "swipe left below the paper") (codes "Swipe Left")
        inherit
    ∷ make_row gesture_swipe_right_below family_swipe 1 dir_right finger_swipe_right below_paper
        (codes "gestureSwipeRightBelow") (codes "swipe right below the paper") (codes "Swipe Right")
        inherit
    ∷ make_row gesture_swipe_up_below family_swipe 1 dir_up finger_swipe_up below_paper
        (codes "gestureSwipeUpBelow") (codes "swipe up below the paper") (codes "Swipe Up") inherit
    ∷ make_row gesture_swipe_down_below family_swipe 1 dir_down finger_swipe_down below_paper
        (codes "gestureSwipeDownBelow") (codes "swipe down below the paper") (codes "Swipe Down")
        inherit
    ∷ make_row gesture_hold_below family_long_press 1 dir_none finger_hold below_paper
        (codes "gestureHoldBelow") (codes "hold below the paper") (codes "Hold") inherit
    ∷ make_row gesture_tap_left_margin family_tap 1 dir_none finger_tap left_margin
        (codes "gestureTapLeftMargin") (codes "tap in the left margin") (codes "Tap") inherit
    ∷ make_row gesture_swipe_left_left_margin family_swipe 1 dir_left finger_swipe_left left_margin
        (codes "gestureSwipeLeftLeftMargin") (codes "swipe left in the left margin")
        (codes "Swipe Left") inherit
    ∷ make_row gesture_swipe_right_left_margin family_swipe 1 dir_right finger_swipe_right
        left_margin (codes "gestureSwipeRightLeftMargin") (codes "swipe right in the left margin")
        (codes "Swipe Right") inherit
    ∷ make_row gesture_swipe_up_left_margin family_swipe 1 dir_up finger_swipe_up left_margin
        (codes "gestureSwipeUpLeftMargin") (codes "swipe up in the left margin") (codes "Swipe Up")
        inherit
    ∷ make_row gesture_swipe_down_left_margin family_swipe 1 dir_down finger_swipe_down left_margin
        (codes "gestureSwipeDownLeftMargin") (codes "swipe down in the left margin")
        (codes "Swipe Down") inherit
    ∷ make_row gesture_hold_left_margin family_long_press 1 dir_none finger_hold left_margin
        (codes "gestureHoldLeftMargin") (codes "hold in the left margin") (codes "Hold") inherit
    ∷ []

abbrev pub no_row : Row
no_row =
    make_row no_gesture family_shake 0 dir_none no_finger neither [] (codes "?") (codes "?") nothing

unfoldable pub row : Gesture → Row
unfolding rows
row g = get_or rows (gesture_code g) no_row
