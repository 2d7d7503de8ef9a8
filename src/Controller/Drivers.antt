-- ===== src/Controller/Drivers.antt =====
-- `MotorController` of autonomous_robot/actuators/motor_controller.py, over the pins of
-- Motors.State. Unlike the functions there, it stops the motors also before it is set up.
use adeept_awr.Common.{ℕ, Bool, true, false, if◌then◌else◌}
use adeept_awr.Motors.State.{
  duty, Motor, Motors, halted, clamp, SetupOutcome, works, fails_before_stop, fails_after_stop,
}
use adeept_awr.Motors.Actions.{slowed}

pub data Direction : Type 0 where
  dir_forward dir_backward : Direction

unfoldable pub stop_all_motors : Motors → Motors
stop_all_motors s = record s { left = halted; right = halted }

unfoldable pub initialize_gpio : SetupOutcome → Motors → Motors × Bool
initialize_gpio works s = (record (stop_all_motors s) { are_motors_initialized = true }, true)
initialize_gpio fails_before_stop s = (s, false)
initialize_gpio fails_after_stop s = (stop_all_motors s, false)

abbrev pub right_towards : Direction → ℕ → Motor
right_towards dir_forward v = record {
  direction_1 = true;
  direction_2 = false;
  enable = duty (clamp v);
}
right_towards dir_backward v = record {
  direction_1 = false;
  direction_2 = true;
  enable = duty (clamp v);
}

abbrev pub left_towards : Direction → ℕ → Motor
left_towards dir_backward v = record {
  direction_1 = true;
  direction_2 = false;
  enable = duty (clamp v);
}
left_towards dir_forward v = record {
  direction_1 = false;
  direction_2 = true;
  enable = duty (clamp v);
}

unfoldable pub control_right_motor : Bool → Direction → ℕ → Motors → Motors
control_right_motor enable d v s =
    if s.are_motors_initialized
    then record s { right = if enable then right_towards d v else halted }
    else s

unfoldable pub control_left_motor : Bool → Direction → ℕ → Motors → Motors
control_left_motor enable d v s =
    if s.are_motors_initialized
    then record s { left = if enable then left_towards d v else halted }
    else s

unfoldable pub both : Direction → ℕ → Direction → ℕ → Motors → Motors
both dl vl dr vr s = control_right_motor true dr vr (control_left_motor true dl vl s)

unfoldable pub move_forward : ℕ → Motors → Motors
unfolding both
move_forward v s = both dir_forward v dir_forward v s

unfoldable pub move_backward : ℕ → Motors → Motors
unfolding both
move_backward v s = both dir_backward v dir_backward v s

unfoldable pub turn_left : ℕ → Motors → Motors
unfolding both
turn_left v s = both dir_forward (slowed v) dir_forward v s

unfoldable pub turn_right : ℕ → Motors → Motors
unfolding both
turn_right v s = both dir_forward v dir_forward (slowed v) s

unfoldable pub pivot_left : ℕ → Motors → Motors
unfolding both
pivot_left v s = both dir_backward v dir_forward v s

unfoldable pub pivot_right : ℕ → Motors → Motors
unfolding both
pivot_right v s = both dir_forward v dir_backward v s

unfoldable pub cleanup : Motors → Motors
cleanup s =
    if s.are_motors_initialized
    then record (stop_all_motors s) { are_motors_initialized = false }
    else s
