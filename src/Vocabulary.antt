-- ===== src/Vocabulary.antt =====
-- The strings that the modules of autonomous_robot hand to one another, as enumerations: the line
-- position (utils/simple_rotary_functions.py), the danger level
-- (sensors/simple_ultrasonic_functions.py) and the names of the driving actions (both, and
-- utils/obstacle_avoidance_strategies.py and actuators/simple_motor_functions.py).
pub data Position : Type 0 where
  left center right lost multiple : Position

pub data DangerLevel : Type 0 where
  safe caution dangerous very_dangerous unknown : DangerLevel

pub data Action : Type 0 where
  stop_all_motors spin_right_in_place spin_left_in_place : Action
  move_straight_forward move_straight_forward_slowly : Action
  move_straight_backward move_backward_to_find_line : Action
  turn_left_to_follow_line turn_right_to_follow_line : Action
  turn_left_slowly turn_right_slowly turn_right_to_avoid_obstacle : Action
  continue_normal_driving : Action
