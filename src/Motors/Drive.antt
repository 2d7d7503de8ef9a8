-- ===== src/Motors/Drive.antt =====
-- What an action makes the wheels do.
use adeept_awr.Common.{ℕ, ◌≡◌, Bool, true, false, arith}
use adeept_awr.Vocabulary.{
  Action, move_straight_forward, move_straight_forward_slowly, move_backward_to_find_line,
  turn_left_to_follow_line, turn_right_to_follow_line, turn_left_slowly, turn_right_slowly,
  spin_left_in_place, spin_right_in_place,
}
use adeept_awr.Motors.State.{
  Enable, duty, Motors, clamp, stop_all_motors_immediately,
  control_left_motor_with_direction_and_speed, control_right_motor_with_direction_and_speed,
}
use adeept_awr.Motors.Actions.{
  slowed, move_robot_straight_forward_at_speed, move_robot_straight_backward_at_speed,
  turn_robot_left_by_slowing_left_motor, turn_robot_right_by_slowing_right_motor,
  spin_robot_left_in_place_at_speed, spin_robot_right_in_place_at_speed,
  execute_driving_action_with_speed,
}

-- The motion of a wheel, seen along the robot.
pub data Motion : Type 0 where
  ahead back : ℕ → Motion
  still undriven : Motion

-- The motors are mounted opposite ways: ahead is the second pin on the left, the first on the right.
abbrev pub motion : Bool → Bool → Enable → Motion
motion true false (duty d) = ahead d
motion false true (duty d) = back d
motion false false _ = still
motion _ _ _ = undriven

abbrev pub left_wheel : Motors → Motion
left_wheel s = motion s.left.direction_2 s.left.direction_1 s.left.enable

abbrev pub right_wheel : Motors → Motion
right_wheel s = motion s.right.direction_1 s.right.direction_2 s.right.enable

abbrev pub wheels : Motors → Motion × Motion
wheels s = (left_wheel s, right_wheel s)

-- What an action means for a robot with two wheels.
abbrev pub meaning : Action → ℕ → Motion × Motion
meaning move_straight_forward v = (ahead (clamp v), ahead (clamp v))
meaning move_straight_forward_slowly v = (ahead (clamp v), ahead (clamp v))
meaning move_backward_to_find_line v = (back (clamp v), back (clamp v))
meaning turn_left_to_follow_line v = (ahead (clamp (slowed v)), ahead (clamp v))
meaning turn_left_slowly v = (ahead (clamp (slowed v)), ahead (clamp v))
meaning turn_right_to_follow_line v = (ahead (clamp v), ahead (clamp (slowed v)))
meaning turn_right_slowly v = (ahead (clamp v), ahead (clamp (slowed v)))
meaning spin_left_in_place v = (back (clamp v), ahead (clamp v))
meaning spin_right_in_place v = (ahead (clamp v), back (clamp v))
meaning _ v = (still, still)

-- Once the motors are set up, an action turns the wheels as its name says, with the speed limited
-- to 100 and the slower wheel of a turn at 60 percent. The actions to move straight backward, to
-- continue normal driving and to turn right to avoid an obstacle, which other files command, stop
-- both wheels.
pub execute-wheels :
    (a : Action) (v : ℕ) (s : Motors)
    → s.are_motors_initialized ≡ true
    → wheels (execute_driving_action_with_speed a v s) ≡ meaning a v
unfolding stop_all_motors_immediately control_left_motor_with_direction_and_speed
    control_right_motor_with_direction_and_speed move_robot_straight_forward_at_speed
    move_robot_straight_backward_at_speed turn_robot_left_by_slowing_left_motor
    turn_robot_right_by_slowing_right_motor spin_robot_left_in_place_at_speed
    spin_robot_right_in_place_at_speed execute_driving_action_with_speed
execute-wheels move_straight_forward v s h = rw h
execute-wheels _ v s h = rw h

-- Before the setup, an action changes no pin.
pub execute-uninitialized :
    (a : Action) (v : ℕ) (s : Motors)
    → s.are_motors_initialized ≡ false
    → execute_driving_action_with_speed a v s ≡ s
unfolding stop_all_motors_immediately control_left_motor_with_direction_and_speed
    control_right_motor_with_direction_and_speed move_robot_straight_forward_at_speed
    move_robot_straight_backward_at_speed turn_robot_left_by_slowing_left_motor
    turn_robot_right_by_slowing_right_motor spin_robot_left_in_place_at_speed
    spin_robot_right_in_place_at_speed execute_driving_action_with_speed
execute-uninitialized move_straight_forward v s h = rw h
execute-uninitialized _ v s h = rw h

pub execute-initialized :
    (a : Action) (v : ℕ) (s : Motors)
    → (execute_driving_action_with_speed a v s).are_motors_initialized ≡ s.are_motors_initialized
unfolding stop_all_motors_immediately control_left_motor_with_direction_and_speed
    control_right_motor_with_direction_and_speed move_robot_straight_forward_at_speed
    move_robot_straight_backward_at_speed turn_robot_left_by_slowing_left_motor
    turn_robot_right_by_slowing_right_motor spin_robot_left_in_place_at_speed
    spin_robot_right_in_place_at_speed execute_driving_action_with_speed
execute-initialized a v s = ground arith
