-- ===== src/FunctionalCar/Turns.antt =====
-- The motor functions of functional_line_car_v2.py. The text of an action is only printed.
use adeept_awr.Common.{◌+◌, Option, none, some, ℤ, pos, negsuc, neg, scaled, if◌then◌else◌, is_zero}
use adeept_awr.Hardware.{stop_gear, set_gear}
use adeept_awr.FunctionalCar.State.{Car}

pub data Intensity : Type 0 where
  gentle normal sharp : Intensity

pub data SearchDirection : Type 0 where
  left right : SearchDirection

abbrev pub forward_speed : ℤ
forward_speed = pos 50

-- The outer wheel of a turn goes ahead, and the inner one back.
abbrev pub turn_outer_speed : ℤ
turn_outer_speed = pos 50

abbrev pub turn_inner_speed : ℤ
turn_inner_speed = negsuc 29

abbrev pub line_search_rotation_speed : ℤ
line_search_rotation_speed = pos 30

-- `speed or FORWARD_SPEED`
abbrev pub speed_or_default : Option ℤ → ℤ
speed_or_default none = forward_speed
speed_or_default (some v) = if is_zero v then forward_speed else v

-- The speed of a turn, for the speed of a normal one.
abbrev pub at_intensity : Intensity → ℤ → ℤ
at_intensity gentle v = scaled 7 v
at_intensity sharp v = scaled 12 v
at_intensity normal v = v

module _ {ℓ} {W : Type ℓ} where
  unfoldable pub stop_motors : Car W → Car W
  stop_motors s = record s { motor_controller = stop_gear s.motor_controller }

  unfoldable pub set_motor_speeds : ℤ → ℤ → Car W → Car W
  set_motor_speeds right_speed left_speed s = record s {
    motor_controller = set_gear right_speed left_speed s.motor_controller;
  }

  unfoldable pub drive_forward : Option ℤ → Car W → Car W
  unfolding set_motor_speeds
  drive_forward speed s = set_motor_speeds (speed_or_default speed) (speed_or_default speed) s

  abbrev pub count_left_turn : Car W → Car W
  count_left_turn s = record s {
    statistics = record s.statistics { left_turn_count = s.statistics.left_turn_count + 1 };
  }

  abbrev pub count_right_turn : Car W → Car W
  count_right_turn s = record s {
    statistics = record s.statistics { right_turn_count = s.statistics.right_turn_count + 1 };
  }

  unfoldable pub execute_left_turn : Car W → Car W
  unfolding set_motor_speeds
  execute_left_turn s = set_motor_speeds turn_outer_speed turn_inner_speed (count_left_turn s)

  unfoldable pub execute_right_turn : Car W → Car W
  unfolding set_motor_speeds
  execute_right_turn s = set_motor_speeds turn_inner_speed turn_outer_speed (count_right_turn s)

  unfoldable pub execute_left_turn_with_intensity : Intensity → Car W → Car W
  unfolding set_motor_speeds
  execute_left_turn_with_intensity intensity s =
      set_motor_speeds (at_intensity intensity turn_outer_speed)
        (at_intensity intensity turn_inner_speed) (count_left_turn s)

  unfoldable pub execute_right_turn_with_intensity : Intensity → Car W → Car W
  unfolding set_motor_speeds
  execute_right_turn_with_intensity intensity s =
      set_motor_speeds (at_intensity intensity turn_inner_speed)
        (at_intensity intensity turn_outer_speed) (count_right_turn s)

  unfoldable pub search_line_by_rotation : SearchDirection → Car W → Car W
  unfolding set_motor_speeds
  search_line_by_rotation left s =
      set_motor_speeds line_search_rotation_speed (neg line_search_rotation_speed) s
  search_line_by_rotation right s =
      set_motor_speeds (neg line_search_rotation_speed) line_search_rotation_speed s
