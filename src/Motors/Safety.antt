-- ===== src/Motors/Safety.antt =====
-- The pins of a motor over any calls.
use adeept_awr.Common.{ℕ, ◌≤◌, ◌≡◌, refl, false, ◌&&◌, List, [], ◌∷◌, arith}
use adeept_awr.Motors.State.{
  Enable, low, duty, Motor, Motors, works, fails_before_stop, fails_after_stop, initial_motors,
  stop_all_motors_immediately, setup_all_motor_pins_and_pwm_controllers,
  control_left_motor_with_direction_and_speed, control_right_motor_with_direction_and_speed,
}
use adeept_awr.Motors.Actions.{
  move_robot_straight_forward_at_speed, move_robot_straight_backward_at_speed,
  turn_robot_left_by_slowing_left_motor, turn_robot_right_by_slowing_right_motor,
  spin_robot_left_in_place_at_speed, spin_robot_right_in_place_at_speed,
  execute_driving_action_with_speed, cleanup_all_motor_resources_safely, Call, set_up, execute,
  stop, clean_up, call, calls,
}

abbrev pub duty_of : Enable → ℕ
duty_of low = 0
duty_of (duty d) = d

-- A motor is never driven both ways at once, nor above its full duty cycle.
pub record IsSafe (m : Motor) : Type 0 where
  pub one_way : (m.direction_1 && m.direction_2) ≡ false
  pub in_range : duty_of m.enable ≤ 100

pub record AreSafe (s : Motors) : Type 0 where
  pub left : IsSafe s.left
  pub right : IsSafe s.right

call-AreSafe : (c : Call) (s : Motors) → AreSafe s → AreSafe (call c s)
unfolding stop_all_motors_immediately setup_all_motor_pins_and_pwm_controllers
    control_left_motor_with_direction_and_speed control_right_motor_with_direction_and_speed
    move_robot_straight_forward_at_speed move_robot_straight_backward_at_speed
    turn_robot_left_by_slowing_left_motor turn_robot_right_by_slowing_right_motor
    spin_robot_left_in_place_at_speed spin_robot_right_in_place_at_speed
    execute_driving_action_with_speed cleanup_all_motor_resources_safely
call-AreSafe (set_up works) s h = ground arith
call-AreSafe (set_up fails_before_stop) s h = h
call-AreSafe (set_up fails_after_stop) s h = ground arith
call-AreSafe (execute a v) s h = ground arith
call-AreSafe stop s h = ground arith
call-AreSafe clean_up s h = ground arith

calls-keep : (cs : List Call) (s : Motors) → AreSafe s → AreSafe (calls cs s)
unfolding calls
calls-keep [] s h = h
calls-keep (c ∷ cs) s h = calls-keep cs (call c s) (call-AreSafe c s h)

-- Whatever calls are made from the start, with whatever actions and speeds, and wherever a setup
-- fails: no motor has both direction pins high, and no duty cycle is above 100.
pub calls-AreSafe : (cs : List Call) → AreSafe (calls cs initial_motors)
unfolding initial_motors
calls-AreSafe cs = calls-keep cs initial_motors (record {
  left = record { one_way = refl; in_range = omega arith };
  right = record { one_way = refl; in_range = omega arith };
})
