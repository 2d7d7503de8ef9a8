-- ===== src/Motors/Actions.antt =====
-- The movements of the robot, the actions by name, and the cleanup.
use adeept_awr.Common.{ℕ, ◌*◌, ◌/◌, true, false, if◌then◌else◌, List, [], ◌∷◌}
use adeept_awr.Vocabulary.{
  Action, stop_all_motors, move_straight_forward, move_straight_forward_slowly,
  move_backward_to_find_line, turn_left_to_follow_line, turn_right_to_follow_line, turn_left_slowly,
  turn_right_slowly, spin_left_in_place, spin_right_in_place,
}
use adeept_awr.Motors.State.{
  Motors, SetupOutcome, stop_all_motors_immediately, setup_all_motor_pins_and_pwm_controllers,
  control_left_motor_with_direction_and_speed, control_right_motor_with_direction_and_speed,
}

unfoldable pub move_robot_straight_forward_at_speed : ℕ → Motors → Motors
move_robot_straight_forward_at_speed v s =
    control_right_motor_with_direction_and_speed true true v
      (control_left_motor_with_direction_and_speed true true v s)

unfoldable pub move_robot_straight_backward_at_speed : ℕ → Motors → Motors
move_robot_straight_backward_at_speed v s =
    control_right_motor_with_direction_and_speed true false v
      (control_left_motor_with_direction_and_speed true false v s)

-- `int(speed * 0.6)`, with the default sharpness of a turn; it is `speed * 6 / 10` rounded down.
abbrev pub slowed : ℕ → ℕ
slowed v = v * 6 / 10

unfoldable pub turn_robot_left_by_slowing_left_motor : ℕ → Motors → Motors
turn_robot_left_by_slowing_left_motor v s =
    control_right_motor_with_direction_and_speed true true v
      (control_left_motor_with_direction_and_speed true true (slowed v) s)

unfoldable pub turn_robot_right_by_slowing_right_motor : ℕ → Motors → Motors
turn_robot_right_by_slowing_right_motor v s =
    control_right_motor_with_direction_and_speed true true (slowed v)
      (control_left_motor_with_direction_and_speed true true v s)

unfoldable pub spin_robot_left_in_place_at_speed : ℕ → Motors → Motors
spin_robot_left_in_place_at_speed v s =
    control_right_motor_with_direction_and_speed true true v
      (control_left_motor_with_direction_and_speed true false v s)

unfoldable pub spin_robot_right_in_place_at_speed : ℕ → Motors → Motors
spin_robot_right_in_place_at_speed v s =
    control_right_motor_with_direction_and_speed true false v
      (control_left_motor_with_direction_and_speed true true v s)

-- An action that is not in the list stops the motors.
unfoldable pub execute_driving_action_with_speed : Action → ℕ → Motors → Motors
execute_driving_action_with_speed move_straight_forward v s =
    move_robot_straight_forward_at_speed v s
execute_driving_action_with_speed move_straight_forward_slowly v s =
    move_robot_straight_forward_at_speed v s
execute_driving_action_with_speed move_backward_to_find_line v s =
    move_robot_straight_backward_at_speed v s
execute_driving_action_with_speed turn_left_to_follow_line v s =
    turn_robot_left_by_slowing_left_motor v s
execute_driving_action_with_speed turn_left_slowly v s = turn_robot_left_by_slowing_left_motor v s
execute_driving_action_with_speed turn_right_to_follow_line v s =
    turn_robot_right_by_slowing_right_motor v s
execute_driving_action_with_speed turn_right_slowly v s =
    turn_robot_right_by_slowing_right_motor v s
execute_driving_action_with_speed spin_left_in_place v s = spin_robot_left_in_place_at_speed v s
execute_driving_action_with_speed spin_right_in_place v s = spin_robot_right_in_place_at_speed v s
execute_driving_action_with_speed stop_all_motors v s = stop_all_motors_immediately s
execute_driving_action_with_speed _ v s = stop_all_motors_immediately s

unfoldable pub cleanup_all_motor_resources_safely : Motors → Motors
cleanup_all_motor_resources_safely s =
    if s.are_motors_initialized
    then record (stop_all_motors_immediately s) { are_motors_initialized = false }
    else s

-- The calls that another file makes.
pub data Call : Type 0 where
  set_up : SetupOutcome → Call
  execute : Action → ℕ → Call
  stop clean_up : Call

abbrev pub call : Call → Motors → Motors
call (set_up o) s = (setup_all_motor_pins_and_pwm_controllers o s).0
call (execute a v) s = execute_driving_action_with_speed a v s
call stop s = stop_all_motors_immediately s
call clean_up s = cleanup_all_motor_resources_safely s

unfoldable pub calls : List Call → Motors → Motors
calls [] s = s
calls (c ∷ cs) s = calls cs (call c s)
