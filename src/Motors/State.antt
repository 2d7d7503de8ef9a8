-- ===== src/Motors/State.antt =====
-- The pins of the two motors, and the two functions that control one motor each. What RPi.GPIO
-- does with a level or a duty cycle is not modelled: the state is what was last written.
use adeept_awr.Common.{ℕ, Bool, true, false, if◌then◌else◌, ltb}

-- What was last asked of the enable pin: a level of 0, or a duty cycle in percent.
pub data Enable : Type 0 where
  low : Enable
  duty : ℕ → Enable

pub record Motor : Type 0 where
  pub direction_1 : Bool
  pub direction_2 : Bool
  pub enable : Enable

pub record Motors : Type 0 where
  pub are_motors_initialized : Bool
  pub left : Motor
  pub right : Motor

abbrev pub halted : Motor
halted = record { direction_1 = false; direction_2 = false; enable = low }

unfoldable pub initial_motors : Motors
initial_motors = record { are_motors_initialized = false; left = halted; right = halted }

-- `max(0, min(100, speed))`, for a speed that is not negative
abbrev pub clamp : ℕ → ℕ
clamp v = if ltb 100 v then 100 else v

-- Where `GPIO` raises during the setup, if it does.
pub data SetupOutcome : Type 0 where
  works fails_before_stop fails_after_stop : SetupOutcome

unfoldable pub stop_all_motors_immediately : Motors → Motors
stop_all_motors_immediately s =
    if s.are_motors_initialized then record s { left = halted; right = halted } else s

unfoldable pub setup_all_motor_pins_and_pwm_controllers : SetupOutcome → Motors → Motors × Bool
setup_all_motor_pins_and_pwm_controllers works s =
    (record (stop_all_motors_immediately s) { are_motors_initialized = true }, true)
setup_all_motor_pins_and_pwm_controllers fails_before_stop s = (s, false)
setup_all_motor_pins_and_pwm_controllers fails_after_stop s = (stop_all_motors_immediately s, false)

unfoldable pub control_left_motor_with_direction_and_speed : Bool → Bool → ℕ → Motors → Motors
control_left_motor_with_direction_and_speed should_move forward_direction speed s =
    if s.are_motors_initialized
    then if should_move
      then if forward_direction
        then record s {
          left = record { direction_1 = false; direction_2 = true; enable = duty (clamp speed) };
        }
        else record s {
          left = record { direction_1 = true; direction_2 = false; enable = duty (clamp speed) };
        }
      else record s { left = halted }
    else s

unfoldable pub control_right_motor_with_direction_and_speed : Bool → Bool → ℕ → Motors → Motors
control_right_motor_with_direction_and_speed should_move forward_direction speed s =
    if s.are_motors_initialized
    then if should_move
      then if forward_direction
        then record s {
          right = record { direction_1 = true; direction_2 = false; enable = duty (clamp speed) };
        }
        else record s {
          right = record { direction_1 = false; direction_2 = true; enable = duty (clamp speed) };
        }
      else record s { right = halted }
    else s
