-- ===== src/Controller/Operations.antt =====
-- The operations of `AutonomousController` in autonomous_controller.py. The control loop is a
-- thread: a thread stands before the test of the loop, behind it, or before the execution of the
-- command that it has decided on, and other operations may come in between.
use adeept_awr.Common.{
  ℕ, ◌+◌, Bool, true, false, not, ◌&&◌, Option, none, some, List, [], ◌∷◌, ◌++◌, Float,
  if◌then◌else◌, get_elem?, set_elem,
}
use adeept_awr.Vocabulary.{lost, multiple}
use adeept_awr.Motors.State.{Motors}
use adeept_awr.Ultrasonic.Echo.{Echo}
use adeept_awr.Controller.Line.{
  DriveAction, forward, backward, turn_left, turn_right, pivot_left, pivot_right, stop, Reading,
  LineSensor, LineCommand, PositionText, position_is, state_is, direction_with_position,
  get_driving_direction,
}
use adeept_awr.Controller.Rotary.{Analyzer, enhance}
use adeept_awr.Controller.Distance.{
  CommandPriority, emergency, UltrasonicSensor, AvoidanceCommand, get_distance_with_history,
  analyze_obstacle_level, get_avoidance_command,
}
use adeept_awr.Controller.Drivers
use adeept_awr.Controller.Drivers.{stop_all_motors, move_forward, move_backward}
use adeept_awr.Controller.Decision.{RobotCommand, Source, ultrasonic, is_urgent, make_decision}

pub data AutonomousMode : Type 0 where
  stop_mode line_following_mode obstacle_avoidance_mode emergency_mode : AutonomousMode

pub data RobotState : Type 0 where
  idle moving line_following obstacle lost_line error : RobotState

-- What the sensors show in one round of the loop, and the clock when the line is observed.
pub record SensorInput {ℓ} (W : Type ℓ) : Type ℓ where
  pub first_pins : Option Reading
  pub second_pins : Option Reading
  pub line_clock : W
  pub echoes : ℕ → ℕ → Echo W

pub record SensorData {ℓ} (W : Type ℓ) : Type ℓ where
  pub line : LineCommand
  pub distance : Option W
  pub ultrasonic_command : AvoidanceCommand W

pub data Thread {ℓ} (W : Type ℓ) : Type ℓ where
  at_head in_body ended : Thread W
  about_to : RobotCommand → SensorData W → Thread W

pub record AutonomousController {ℓ} (W : Type ℓ) : Type ℓ where
  pub current_mode : AutonomousMode
  pub is_running : Bool
  pub is_emergency : Bool
  pub loop_count : ℕ
  pub led : RobotState
  pub motors : Motors
  pub line : LineSensor
  pub enhanced_line_sensor : Option (Analyzer W)
  pub distance : UltrasonicSensor W
  pub threads : List (Thread W)
  -- a call of `stop_autonomous_driving` waits for the thread
  pub is_stopping : Bool

abbrev pub is_stop : DriveAction → Bool
is_stop stop = true
is_stop _ = false

abbrev pub is_ultrasonic : Source → Bool
is_ultrasonic ultrasonic = true
is_ultrasonic _ = false

-- A rotary state is not one of the positions that are tested for.
abbrev pub state_on : PositionText → RobotState
state_on (position_is lost) = lost_line
state_on (position_is multiple) = moving
state_on (position_is _) = line_following
state_on (state_is _) = moving

unfoldable pub robot_state_for : RobotCommand → PositionText → Bool → RobotState
robot_state_for c p is_emergency =
    if is_emergency
    then error
    else if is_stop c.action
    then idle
    else if is_ultrasonic c.source && is_urgent c.priority
    then obstacle
    else state_on p

module _ {ℓ} {W : Type ℓ} ⦃f : Float W⦄ where
  unfoldable pub start_autonomous_driving :
      AutonomousMode → AutonomousController W → AutonomousController W × Bool
  start_autonomous_driving mode s = if s.is_running then (s, false) else (
    record s {
      current_mode = mode;
      is_running = true;
      is_emergency = false;
      loop_count = 0;
      threads = s.threads ++ (at_head ∷ []);
      led = moving;
    },
    true,
  )

  -- `stop_autonomous_driving` up to the wait for the thread, and after it.
  unfoldable pub request_stop : AutonomousController W → AutonomousController W
  request_stop s =
      if s.is_running
      then record s { is_running = false; current_mode = stop_mode; is_stopping = true }
      else s

  unfoldable pub finish_stop : AutonomousController W → AutonomousController W
  finish_stop s =
      if s.is_stopping
      then record s { motors = stop_all_motors s.motors; led = idle; is_stopping = false }
      else s

  unfoldable pub emergency_stop : AutonomousController W → AutonomousController W
  emergency_stop s = record s {
    is_emergency = true;
    is_running = false;
    motors = stop_all_motors s.motors;
    led = error;
  }

  -- The rotary sensor is asked where there is one; it asks the line sensor itself.
  unfoldable pub line_of :
      Option (Analyzer W)
      → SensorInput W
      → LineSensor
      → LineSensor × Option (Analyzer W) × LineCommand
  line_of none i s =
      let (s', c) = get_driving_direction i.first_pins i.second_pins s in (s', none, c)
  line_of (some a) i s =
      let (s', p, c) = direction_with_position i.first_pins i.second_pins s in
      let (a', e) = enhance c p i.line_clock a in (s', some a', e)

  -- `_collect_sensor_data`: the distance, the level and the command each may measure again.
  unfoldable pub collect_sensor_data :
      SensorInput W → AutonomousController W → AutonomousController W × SensorData W
  collect_sensor_data i s =
      let (l, e, c) = line_of s.enhanced_line_sensor i s.line in
      let (d₁, distance) = get_distance_with_history (i.echoes 0) s.distance in
      let (d₂, level) = analyze_obstacle_level distance (i.echoes 1) d₁ in
      let (d₃, u) = get_avoidance_command (i.echoes 2) (i.echoes 3) d₂ in
      (
        record s { line = l; enhanced_line_sensor = e; distance = d₃ },
        record { line = c; distance = distance; ultrasonic_command = u },
      )

  abbrev pub with_motors : (Motors → Motors) → AutonomousController W → AutonomousController W
  with_motors g s = record s { motors = g s.motors }

  unfoldable pub stop_for : CommandPriority → AutonomousController W → AutonomousController W
  stop_for emergency s = emergency_stop s
  stop_for _ s = s

  -- `_execute_command`
  unfoldable pub execute_command :
      DriveAction → RobotCommand → AutonomousController W → AutonomousController W
  unfolding stop_for
  execute_command forward c s = with_motors (move_forward c.speed) s
  execute_command backward c s = with_motors (move_backward c.speed) s
  execute_command turn_left c s = with_motors (Drivers.turn_left c.speed) s
  execute_command turn_right c s = with_motors (Drivers.turn_right c.speed) s
  execute_command pivot_left c s = with_motors (Drivers.pivot_left c.speed) s
  execute_command pivot_right c s = with_motors (Drivers.pivot_right c.speed) s
  execute_command stop c s = stop_for c.priority (with_motors stop_all_motors s)

  -- `_update_status`
  unfoldable pub update_status :
      RobotCommand → SensorData W → AutonomousController W → AutonomousController W
  update_status c d s = record s { led = robot_state_for c d.line.line_position s.is_emergency }

  -- One step of a thread of the control loop.
  unfoldable pub thread_step :
      SensorInput W → Thread W → AutonomousController W → AutonomousController W × Thread W
  thread_step i at_head s = (s, if s.is_running && not s.is_emergency then in_body else ended)
  thread_step i in_body s =
      let (s', d) = collect_sensor_data i s in
      (s', about_to (make_decision d.line d.ultrasonic_command d.distance) d)
  thread_step i (about_to c d) s =
      let s' = update_status c d (execute_command c.action c s) in
      (record s' { loop_count = s'.loop_count + 1 }, at_head)
  thread_step i ended s = (s, ended)

pub data Event {ℓ} (W : Type ℓ) : Type ℓ where
  start : AutonomousMode → Event W
  stop_requested stop_finished emergency_requested : Event W
  step_of : ℕ → SensorInput W → Event W

module _ {ℓ} {W : Type ℓ} ⦃f : Float W⦄ where
  unfoldable pub step_thread :
      Option (Thread W) → ℕ → SensorInput W → AutonomousController W → AutonomousController W
  step_thread none k i s = s
  step_thread (some t) k i s =
      let (s', t') = thread_step i t s in record s' { threads = set_elem s'.threads k t' }

  unfoldable pub happen : Event W → AutonomousController W → AutonomousController W
  unfolding step_thread
  happen (start mode) s = (start_autonomous_driving mode s).0
  happen stop_requested s = request_stop s
  happen stop_finished s = finish_stop s
  happen emergency_requested s = emergency_stop s
  happen (step_of k i) s = step_thread (get_elem? s.threads k) k i s

  unfoldable pub history : List (Event W) → AutonomousController W → AutonomousController W
  history [] s = s
  history (e ∷ es) s = history es (happen e s)
