-- ===== src/Robot/State.antt =====
-- The state that the program keeps and reaches, and the start and end of the hardware in
-- simple_robot_main.py.
use adeept_awr.Common.{ℕ, Bool, true, false, ◌&&◌, Float, if◌then◌else◌}
use adeept_awr.Motors.State.{
  Motors, SetupOutcome, stop_all_motors_immediately, setup_all_motor_pins_and_pwm_controllers,
  initial_motors,
}
use adeept_awr.Motors.Actions.{cleanup_all_motor_resources_safely}
use adeept_awr.Rotary.State.{RotaryMemory, reset_all_rotary_memory, initial_memory}
use adeept_awr.Ultrasonic.State.{UltrasonicFilter, initial_ultrasonic}
use adeept_awr.Avoidance.State.{AvoidanceState, initial_state}

-- The globals of the program and of the modules that it calls.
pub record Robot {ℓ} (W : Type ℓ) : Type ℓ where
  pub is_robot_running : Bool
  pub should_stop_robot : Bool
  pub total_control_loops : ℕ
  pub is_ultrasonic_initialized : Bool
  pub motors : Motors
  pub line_memory : RotaryMemory W
  pub distances : UltrasonicFilter W
  pub avoidance : AvoidanceState W

module _ {ℓ} {W : Type ℓ} ⦃f : Float W⦄ where
  unfoldable pub initial_robot : Robot W
  initial_robot = record {
    is_robot_running = false;
    should_stop_robot = false;
    total_control_loops = 0;
    is_ultrasonic_initialized = false;
    motors = initial_motors;
    line_memory = initial_memory;
    distances = initial_ultrasonic;
    avoidance = initial_state;
  }

  -- `setup_ultrasonic_sensor_pins`, which fails if `GPIO` raises.
  unfoldable pub setup_ultrasonic_sensor_pins : Bool → Robot W → Robot W × Bool
  setup_ultrasonic_sensor_pins works s =
      if works then (record s { is_ultrasonic_initialized = true }, true) else (s, false)

  unfoldable pub initialize_all_robot_hardware_systems :
      SetupOutcome → Bool → Robot W → Robot W × Bool
  initialize_all_robot_hardware_systems motor_outcome ultrasonic_works s =
      let (m, motors_ready) = setup_all_motor_pins_and_pwm_controllers motor_outcome s.motors in
      let (s', ultrasonic_ready) =
        setup_ultrasonic_sensor_pins ultrasonic_works (record s { motors = m }) in
      if motors_ready && ultrasonic_ready
      then (
        record s' {
          line_memory = reset_all_rotary_memory s'.line_memory;
          motors = stop_all_motors_immediately s'.motors;
        },
        true,
      )
      else (s', false)

  unfoldable pub handle_emergency_stop_signal : Robot W → Robot W
  handle_emergency_stop_signal s = record s { should_stop_robot = true }

  unfoldable pub cleanup_ultrasonic_resources : Robot W → Robot W
  cleanup_ultrasonic_resources s = record s { is_ultrasonic_initialized = false }

  unfoldable pub cleanup_all_robot_resources_before_exit : Robot W → Robot W
  cleanup_all_robot_resources_before_exit s = cleanup_ultrasonic_resources (record s {
    is_robot_running = false;
    motors = cleanup_all_motor_resources_safely (stop_all_motors_immediately s.motors);
  })

  unfoldable pub restart_robot_system : SetupOutcome → Bool → Robot W → Robot W × Bool
  restart_robot_system motor_outcome ultrasonic_works s =
      let s' = cleanup_ultrasonic_resources (record s {
        motors = cleanup_all_motor_resources_safely (stop_all_motors_immediately s.motors);
      }) in
      initialize_all_robot_hardware_systems motor_outcome ultrasonic_works
        (record s' { line_memory = reset_all_rotary_memory s'.line_memory })
