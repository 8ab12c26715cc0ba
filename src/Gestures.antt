-- ===== src/Gestures.antt =====
-- ios/GestureBindings.h: what each gesture of the page does. A row of the settings belongs to each gesture.
pub mod Rows
pub mod Resolve
pub mod Lookup
mod Tests
use crosspoint_simulator.Prelude.{
  ℕ, ◌-◌, Bool, true, false, List, [], ◌∷◌, ◌||◌, ◌&&◌, not, ltb, ◌==◌, if◌then◌else◌, Option, none,
  some, get_or, length, any, ℤ, pos, negsuc, Bytes, codes,
}

pub data Action : Type 0 where
  unset nothing back confirm left right up down power toggle_zen font_family_step inherit
        font_family_step_back open_action_menu full_refresh :
      Action

pub data Zone : Type 0 where
  above_paper neither below_paper left_margin : Zone

pub data OneFinger : Type 0 where
  finger_tap finger_swipe_left finger_swipe_right finger_swipe_up finger_swipe_down finger_hold
        no_finger :
      OneFinger

pub data Family : Type 0 where
  family_tap family_swipe family_long_press family_pinch family_shake family_button family_tilt :
      Family

pub data Dir : Type 0 where
  dir_none dir_left dir_right dir_up dir_down : Dir

pub data Group : Type 0 where
  group_one_finger group_two_fingers group_device group_above_paper group_below_paper
        group_left_margin no_group :
      Group

pub data Gesture : Type 0 where
  gesture_tap_global gesture_swipe_left_global gesture_swipe_right_global gesture_swipe_up_global
        gesture_swipe_down_global gesture_hold_global gesture_two_finger_tap
        gesture_two_finger_swipe_left gesture_two_finger_swipe_right gesture_two_finger_swipe_up
        gesture_two_finger_swipe_down gesture_two_finger_hold gesture_pinch gesture_spread
        gesture_shake gesture_volume_up gesture_volume_down gesture_tilt_left gesture_tilt_right
        gesture_tilt_forward gesture_tilt_back gesture_tap_above gesture_swipe_left_above
        gesture_swipe_right_above gesture_swipe_up_above gesture_hold_above gesture_tap_below
        gesture_swipe_left_below gesture_swipe_right_below gesture_swipe_up_below
        gesture_swipe_down_below gesture_hold_below gesture_tap_left_margin
        gesture_swipe_left_left_margin gesture_swipe_right_left_margin gesture_swipe_up_left_margin
        gesture_swipe_down_left_margin gesture_hold_left_margin no_gesture :
      Gesture

-- The numbers of the enumerations.
abbrev pub action_code : Action → ℕ
action_code unset = 0
action_code nothing = 1
action_code back = 2
action_code confirm = 3
action_code left = 4
action_code right = 5
action_code up = 6
action_code down = 7
action_code power = 8
action_code toggle_zen = 9
action_code font_family_step = 10
action_code inherit = 11
action_code font_family_step_back = 12
action_code open_action_menu = 13
action_code full_refresh = 14

abbrev pub zone_code : Zone → ℕ
zone_code above_paper = 0
zone_code neither = 1
zone_code below_paper = 2
zone_code left_margin = 3

abbrev pub finger_code : OneFinger → ℕ
finger_code finger_tap = 0
finger_code finger_swipe_left = 1
finger_code finger_swipe_right = 2
finger_code finger_swipe_up = 3
finger_code finger_swipe_down = 4
finger_code finger_hold = 5
finger_code no_finger = 6

abbrev pub gesture_code : Gesture → ℕ
gesture_code gesture_tap_global = 0
gesture_code gesture_swipe_left_global = 1
gesture_code gesture_swipe_right_global = 2
gesture_code gesture_swipe_up_global = 3
gesture_code gesture_swipe_down_global = 4
gesture_code gesture_hold_global = 5
gesture_code gesture_two_finger_tap = 6
gesture_code gesture_two_finger_swipe_left = 7
gesture_code gesture_two_finger_swipe_right = 8
gesture_code gesture_two_finger_swipe_up = 9
gesture_code gesture_two_finger_swipe_down = 10
gesture_code gesture_two_finger_hold = 11
gesture_code gesture_pinch = 12
gesture_code gesture_spread = 13
gesture_code gesture_shake = 14
gesture_code gesture_volume_up = 15
gesture_code gesture_volume_down = 16
gesture_code gesture_tilt_left = 17
gesture_code gesture_tilt_right = 18
gesture_code gesture_tilt_forward = 19
gesture_code gesture_tilt_back = 20
gesture_code gesture_tap_above = 21
gesture_code gesture_swipe_left_above = 22
gesture_code gesture_swipe_right_above = 23
gesture_code gesture_swipe_up_above = 24
gesture_code gesture_hold_above = 25
gesture_code gesture_tap_below = 26
gesture_code gesture_swipe_left_below = 27
gesture_code gesture_swipe_right_below = 28
gesture_code gesture_swipe_up_below = 29
gesture_code gesture_swipe_down_below = 30
gesture_code gesture_hold_below = 31
gesture_code gesture_tap_left_margin = 32
gesture_code gesture_swipe_left_left_margin = 33
gesture_code gesture_swipe_right_left_margin = 34
gesture_code gesture_swipe_up_left_margin = 35
gesture_code gesture_swipe_down_left_margin = 36
gesture_code gesture_hold_left_margin = 37
gesture_code no_gesture = 38

pub record Row : Type 0 where
  pub gesture : Gesture
  pub family : Family
  pub fingers : ℕ
  pub dir : Dir
  pub kind : OneFinger
  pub zone : Zone
  pub key : Bytes
  pub name : Bytes
  pub title : Bytes
  pub default_action : Action
