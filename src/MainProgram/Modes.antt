-- ===== src/MainProgram/Modes.antt =====
-- What a round of the control loop of main.py does in each mode.
use adeept_awr.Common.{
  ℕ, ◌+◌, ◌-◌, ◌*◌, ◌/◌, Bool, true, false, not, ◌&&◌, Option, none, some, Float, of_ℕ, Answer,
  gives, raises, if◌then◌else◌, leb, ℤ, pos, minus, neg, is_zero, is_negative, magnitude,
}
use adeept_awr.Hardware.{Levels, get_line_position, stop_gear, set_gear}
use adeept_awr.MainProgram.State.{
  RobotMode, idle_mode, manual, line_following_mode, obstacle_avoidance_mode, auto_navigation,
  emergency_stop_mode, moving, obstacle, line_following, lost, error, Thread, at_test, in_body,
  ended, AutonomousRobot, set_state_color,
}

-- What a round may read: the line sensor, and the distance once or twice.
pub record Input {ℓ} (W : Type ℓ) : Type ℓ where
  pub levels : Answer Levels
  pub first_echo : Answer (Option W)
  pub second_echo : Answer (Option W)

abbrev pub base_speed : ℕ
base_speed = 40

-- `int(abs(position) * 30)`, for a position in tenths
abbrev pub turn_speed : ℤ → ℕ
turn_speed position = magnitude position * 30 / 10

abbrev pub minus_from : ℕ → ℕ → ℤ
minus_from a b = if leb b a then pos (a - b) else minus (b - a)

-- The mode whose round leaves the loop.
abbrev pub is_break : RobotMode → Bool
is_break emergency_stop_mode = true
is_break _ = false

module _ {ℓ} {W : Type ℓ} where
  abbrev pub set_speeds : ℤ → ℤ → AutonomousRobot W → AutonomousRobot W
  set_speeds a b s = record s { motor_controller = set_gear a b s.motor_controller }

  unfoldable pub idle_mode_round : AutonomousRobot W → AutonomousRobot W
  idle_mode_round s = record s { motor_controller = stop_gear s.motor_controller }

  unfoldable pub search_line : AutonomousRobot W → AutonomousRobot W
  search_line s = set_speeds (neg (pos 30)) (pos 30) s

  abbrev pub follow : Option ℤ → AutonomousRobot W → AutonomousRobot W
  follow none s = search_line (set_state_color lost s)
  follow (some position) s =
      let t = turn_speed position in
      let s' = set_state_color line_following s in
      if is_zero position
      then set_speeds (pos base_speed) (pos base_speed) s'
      else if is_negative position
      then set_speeds (pos (base_speed + t)) (minus_from base_speed t) s'
      else set_speeds (minus_from base_speed t) (pos (base_speed + t)) s'

  abbrev pub has_motors : AutonomousRobot W → Bool
  has_motors s = is_some s.motor_controller
    where
      is_some : {A : Type 0} → Option A → Bool
      is_some none = false
      is_some (some a) = true

  abbrev pub follow_levels : Answer Levels → AutonomousRobot W → Answer (AutonomousRobot W)
  follow_levels (gives l) s = gives (follow (get_line_position l) s)
  follow_levels raises s = raises

  -- A round that raises has not changed anything before.
  unfoldable pub line_following_mode_round :
      Input W → AutonomousRobot W → Answer (AutonomousRobot W)
  unfolding search_line
  line_following_mode_round i s =
      if s.line_sensor && has_motors s then follow_levels i.levels s else gives s

  unfoldable pub emergency_stop_mode_round : AutonomousRobot W → AutonomousRobot W
  emergency_stop_mode_round s =
      set_state_color error
        (record s { motor_controller = stop_gear s.motor_controller; is_running = false })

module _ {ℓ} {W : Type ℓ} ⦃f : Float W⦄ where
  abbrev pub distance_or_far : Option W → W
  distance_or_far none = of_ℕ 999
  distance_or_far (some d) = d

  abbrev pub avoid_at : W → AutonomousRobot W → AutonomousRobot W
  avoid_at distance s =
      if f.lt distance (of_ℕ 10)
      then record (set_state_color error s) { motor_controller = stop_gear s.motor_controller }
      else if f.lt distance (of_ℕ 20)
      then set_speeds (neg (pos 40)) (pos 40) (set_state_color obstacle s)
      else if f.lt distance (of_ℕ 40)
      then set_speeds (pos 20) (pos 20) (set_state_color obstacle s)
      else set_speeds (pos 50) (pos 50) (set_state_color moving s)

  abbrev pub avoid_echo : Answer (Option W) → AutonomousRobot W → Answer (AutonomousRobot W)
  avoid_echo (gives o) s = gives (avoid_at (distance_or_far o) s)
  avoid_echo raises s = raises

  unfoldable pub obstacle_avoidance_mode_round :
      Answer (Option W) → AutonomousRobot W → Answer (AutonomousRobot W)
  obstacle_avoidance_mode_round echo s =
      if s.ultrasonic_sensor && has_motors s then avoid_echo echo s else gives s

  -- `distance and distance < 30`
  abbrev pub is_near : Option W → Bool
  is_near none = false
  is_near (some d) = not (f.eq d (of_ℕ 0)) && f.lt d (of_ℕ 30)

  abbrev pub navigate : Answer (Option W) → Input W → AutonomousRobot W → Answer (AutonomousRobot W)
  navigate (gives o) i s =
      if is_near o
      then obstacle_avoidance_mode_round i.second_echo s
      else line_following_mode_round i s
  navigate raises i s = raises

  unfoldable pub auto_navigation_mode_round :
      Input W → AutonomousRobot W → Answer (AutonomousRobot W)
  unfolding obstacle_avoidance_mode_round line_following_mode_round
  auto_navigation_mode_round i s =
      if s.line_sensor && (s.ultrasonic_sensor && has_motors s)
      then navigate i.first_echo i s
      else gives s

  abbrev pub round_in : RobotMode → Input W → AutonomousRobot W → Answer (AutonomousRobot W)
  round_in idle_mode i s = gives (idle_mode_round s)
  round_in line_following_mode i s = line_following_mode_round i s
  round_in obstacle_avoidance_mode i s = obstacle_avoidance_mode_round i.first_echo s
  round_in auto_navigation i s = auto_navigation_mode_round i s
  round_in emergency_stop_mode i s = gives (emergency_stop_mode_round s)
  round_in manual i s = gives s

  -- After the loop, the motors are stopped.
  abbrev pub leave_loop : AutonomousRobot W → AutonomousRobot W × Thread
  leave_loop s = (record s { motor_controller = stop_gear s.motor_controller }, ended)

  abbrev pub after_round :
      Bool → Answer (AutonomousRobot W) → AutonomousRobot W → AutonomousRobot W × Thread
  after_round breaks (gives s') s = if breaks then leave_loop s' else (s', at_test)
  after_round breaks raises s = leave_loop (record s { emergency_stop = true })

  -- `_control_loop`, one step of it: the test and what follows the loop, or the body.
  unfoldable pub control_loop_step :
      Input W → Thread → AutonomousRobot W → AutonomousRobot W × Thread
  control_loop_step i at_test s =
      if s.is_running && not s.emergency_stop then (s, in_body) else leave_loop s
  control_loop_step i in_body s =
      after_round (is_break s.current_mode) (round_in s.current_mode i s) s
  control_loop_step i ended s = (s, ended)
