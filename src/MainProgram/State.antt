-- ===== src/MainProgram/State.antt =====
-- `AutonomousRobot` of main.py: its state, its start and its stop. A `None` in the place of a
-- controller is the simulation.
use adeept_awr.Common.{Bool, true, false, Option, none, some, List, [], ◌∷◌, ◌++◌, if◌then◌else◌}
use adeept_awr.Hardware.{Gear, initial_gear, stop_gear, Servos, cleanup_servos}

pub data RobotMode : Type 0 where
  idle_mode manual line_following_mode obstacle_avoidance_mode auto_navigation : RobotMode
  emergency_stop_mode : RobotMode

-- The state that the LED strip shows, of hardware/test_led_strip.py.
pub data RobotState : Type 0 where
  idle moving obstacle line_following lost error shutdown : RobotState

pub data Thread : Type 0 where
  at_test in_body ended : Thread

pub record AutonomousRobot {ℓ} (W : Type ℓ) : Type ℓ where
  pub current_mode : RobotMode
  pub is_running : Bool
  pub emergency_stop : Bool
  pub motor_controller : Option Gear
  pub line_sensor : Bool
  pub ultrasonic_sensor : Bool
  pub led_controller : Option RobotState
  pub servo_controller : Option (Servos W)
  pub threads : List Thread

-- How the initialization of the hardware goes: without the modules or with an exception on the way
-- the robot is simulated; a servo controller that cannot be made is left out.
pub data Loading {ℓ} (W : Type ℓ) : Type ℓ where
  loaded : Option (Servos W) → Loading W
  not_available fails : Loading W

abbrev pub same_mode : RobotMode → RobotMode → Bool
same_mode idle_mode idle_mode = true
same_mode manual manual = true
same_mode line_following_mode line_following_mode = true
same_mode obstacle_avoidance_mode obstacle_avoidance_mode = true
same_mode auto_navigation auto_navigation = true
same_mode emergency_stop_mode emergency_stop_mode = true
same_mode _ _ = false

abbrev pub show : RobotState → Option RobotState → Option RobotState
show state none = none
show state (some old) = some state

abbrev pub state_for : RobotMode → RobotState
state_for idle_mode = idle
state_for line_following_mode = line_following
state_for obstacle_avoidance_mode = obstacle
state_for emergency_stop_mode = error
state_for _ = moving

module _ {ℓ} {W : Type ℓ} where
  unfoldable pub initialize_simulation : AutonomousRobot W → AutonomousRobot W
  initialize_simulation s = record s {
    motor_controller = none;
    line_sensor = false;
    ultrasonic_sensor = false;
    led_controller = none;
    servo_controller = none;
  }

  unfoldable pub initialize_hardware : Loading W → AutonomousRobot W → AutonomousRobot W
  unfolding initialize_simulation
  initialize_hardware (loaded servos) s = record s {
    motor_controller = some initial_gear;
    line_sensor = true;
    ultrasonic_sensor = true;
    led_controller = some idle;
    servo_controller = servos;
  }
  initialize_hardware not_available s = initialize_simulation s
  initialize_hardware fails s = initialize_simulation s

  -- `__init__`
  unfoldable pub initial_robot : Loading W → AutonomousRobot W
  unfolding initialize_hardware
  initial_robot o = initialize_hardware o (record {
    current_mode = idle_mode;
    is_running = false;
    emergency_stop = false;
    motor_controller = none;
    line_sensor = false;
    ultrasonic_sensor = false;
    led_controller = none;
    servo_controller = none;
    threads = [];
  })

  abbrev pub set_state_color : RobotState → AutonomousRobot W → AutonomousRobot W
  set_state_color state s = record s { led_controller = show state s.led_controller }

  unfoldable pub start_robot : AutonomousRobot W → AutonomousRobot W
  start_robot s = if s.is_running then s else record s {
    is_running = true;
    emergency_stop = false;
    led_controller = show moving s.led_controller;
    threads = s.threads ++ (at_test ∷ []);
  }

  -- The wait for the thread, of at most two seconds, changes nothing.
  unfoldable pub stop_robot : AutonomousRobot W → AutonomousRobot W
  stop_robot s = record s {
    is_running = false;
    motor_controller = stop_gear s.motor_controller;
    led_controller = show (if s.emergency_stop then error else shutdown) s.led_controller;
  }

  unfoldable pub signal_handler : AutonomousRobot W → AutonomousRobot W
  unfolding stop_robot
  signal_handler s = stop_robot (record s { emergency_stop = true })

  unfoldable pub set_mode : RobotMode → AutonomousRobot W → AutonomousRobot W
  set_mode mode s =
      if same_mode mode s.current_mode
      then s
      else set_state_color (state_for mode) (record s { current_mode = mode })

  abbrev pub clean_servos : Option (Servos W) → Option (Servos W)
  clean_servos none = none
  clean_servos (some v) = some (cleanup_servos v)

  -- `cleanup` of the motor controller stops the motors once more, and that of the servo controller
  -- ends the pulses of all channels. The LED strip keeps the state that was last set, and is dark.
  unfoldable pub cleanup : AutonomousRobot W → AutonomousRobot W
  unfolding stop_robot
  cleanup s =
      let s' = stop_robot s in
      record s' {
        motor_controller = stop_gear s'.motor_controller;
        servo_controller = clean_servos s'.servo_controller;
      }
