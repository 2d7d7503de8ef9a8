-- ===== src/AdvancedCar/Car.antt =====
-- `AdvancedLineFollowingCar` of advanced_line_car.py: following the line, and searching it. The
-- statistics keep no driving time: `update_statistics` tests a dictionary for an attribute, which it
-- never has.
use adeept_awr.Common.{
  ℕ, ◌+◌, ◌*◌, ◌/◌, Bool, false, ◌&&◌, ◌||◌, Option, none, some, if◌then◌else◌, ltb, ◌==◌, ℤ, pos,
  neg, minus, magnitude, is_zero, is_negative, plus, limited,
}
use adeept_awr.Hardware.{Gear, stop_gear, set_gear}
use adeept_awr.AdvancedCar.Config.{Config}

pub record Car : Type 0 where
  pub line_sensor : Bool
  pub motor_controller : Option Gear
  pub running : Bool
  -- in tenths
  pub last_valid_position : ℤ
  pub line_lost_count : ℕ
  pub stable_count : ℕ
  pub left_turns : ℕ
  pub right_turns : ℕ
  pub line_lost_events : ℕ

unfoldable pub initial_car : Bool → Option Gear → Car
initial_car sensor gear = record {
  line_sensor = sensor;
  motor_controller = gear;
  running = false;
  last_valid_position = pos 0;
  line_lost_count = 0;
  stable_count = 0;
  left_turns = 0;
  right_turns = 0;
  line_lost_events = 0;
}

abbrev pub set_speeds : ℤ → ℤ → Car → Car
set_speeds a b s = record s { motor_controller = set_gear a b s.motor_controller }

-- The speeds of the right and of the left wheel, before they are limited.
abbrev pub turn_speeds : Config → Bool → ℤ → ℤ × ℤ
turn_speeds c sharp position =
    if is_zero position
    then (c.forward_speed, c.forward_speed)
    else if is_negative position
    then if sharp
      then (plus c.left_turn_right_motor c.speed_boost, minus (magnitude c.left_turn_left_motor))
      else (c.left_turn_right_motor, c.left_turn_left_motor)
    else if sharp
    then (minus (magnitude c.right_turn_right_motor), plus c.right_turn_left_motor c.speed_boost)
    else (c.right_turn_right_motor, c.right_turn_left_motor)

abbrev pub count_turn : ℤ → Car → Car
count_turn position s =
    if is_zero position
    then s
    else if is_negative position
    then record s { right_turns = s.right_turns + 1 }
    else record s { left_turns = s.left_turns + 1 }

abbrev pub is_sharp : Config → ℤ → Bool
is_sharp c position = ltb c.position_threshold (magnitude position) && c.opposite_direction

abbrev pub limit_speed : Config → ℤ → ℤ
limit_speed c v = limited c.min_speed c.max_speed v

-- In a simulation it returns before anything is counted.
abbrev pub follow_with : Option Gear → Config → ℤ → Car → Car
follow_with none c position s = s
follow_with (some g) c position s =
    let (r, l) = turn_speeds c (is_sharp c position) position in
    set_speeds (limit_speed c r) (limit_speed c l) (count_turn position s)

unfoldable pub follow_line_advanced : Config → ℤ → Car → Car
follow_line_advanced c position s = follow_with s.motor_controller c position s

-- `line_lost_count / CONTROL_FREQUENCY > LINE_LOST_TIMEOUT`, multiplied out
abbrev pub is_overdue : Config → ℕ → Bool
is_overdue c count = ltb (c.line_lost_timeout * c.control_frequency) (count * 1000)

-- `int(LINE_LOST_TIMEOUT * CONTROL_FREQUENCY)`
abbrev pub timeout_rounds : Config → ℕ
timeout_rounds c = c.line_lost_timeout * c.control_frequency / 1000

abbrev pub search : Config → Car → Car
search c s =
    if is_zero s.last_valid_position || is_negative s.last_valid_position
    then set_speeds c.search_speed (neg c.search_speed) s
    else set_speeds (neg c.search_speed) c.search_speed s

-- A frequency of zero raises at the division, which ends the control loop, as its delay does.
unfoldable pub handle_line_lost : Config → Car → Car
handle_line_lost c s =
    let s' = record s { line_lost_count = s.line_lost_count + 1 } in
    if c.control_frequency == 0
    then s'
    else if is_overdue c s'.line_lost_count
    then search c (
        if s'.line_lost_count == timeout_rounds c + 1
        then record s' { line_lost_events = s'.line_lost_events + 1 }
        else s')
    else record s' { motor_controller = stop_gear s'.motor_controller }

unfoldable pub process_line_sensor : Config → Option ℤ → Car → Car
unfolding handle_line_lost follow_line_advanced
process_line_sensor c none s = handle_line_lost c s
process_line_sensor c (some position) s = follow_line_advanced c position (record s {
  line_lost_count = 0;
  last_valid_position = position;
  stable_count = s.stable_count + 1;
})
