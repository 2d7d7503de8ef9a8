-- ===== src/MainProgram/Examples.antt =====
-- Concrete runs of the main program, in thousandths.
use adeept_awr.Common.{
  ℕ, ◌*◌, ◌/◌, ◌≡◌, refl, true, false, none, some, List, [], ◌∷◌, ◌++◌, gives, raises, fixed_float,
  pos,
}
use adeept_awr.Hardware.{initial_gear, IsDriven, levels, Servos}
use adeept_awr.MainProgram.State.{
  AutonomousRobot, loaded, idle, in_body, initialize_hardware, initial_robot, line_following_mode,
  moving, auto_navigation,
}
use adeept_awr.MainProgram.Modes.{Input, line_following_mode_round, auto_navigation_mode_round}
use adeept_awr.MainProgram.Commands.{
  Key, Word, key_1, key_servo, key_other, drive_in, Event, command, signal, quit, thread, happen,
  history,
}
use adeept_awr.MainProgram.Wheels.{robot_never_reverses}
use adeept_awr.MainProgram.Navigation.{Shows, line_table, line_round-Shows, failed_echo_drives_on}
use adeept_awr.MainProgram.Stopping.{HasLeft, signal_stops, failure_blocks_start}
use adeept_awr.MainProgram.Servos.{
  Pulses, has_ended, history-Pulses, ServosOff, steps, end_stays-ServosOff,
}

abbrev to_int : ℕ → ℕ
to_int w = w / 1000

abbrev servos : Servos ℕ
servos = record { is_available = true; current_positions = λ c. none; written = [] }

abbrev robot : AutonomousRobot ℕ
robot = record (initial_robot (loaded (some servos))) {
  current_mode = line_following_mode;
  is_running = true;
  motor_controller = some initial_gear;
  line_sensor = true;
  ultrasonic_sensor = true;
  led_controller = some idle;
  threads = in_body ∷ [];
}

-- The line under the left sensor, an obstacle at 25 cm, and no second echo.
abbrev input : Input ℕ
input = record {
  levels = gives (levels true false false);
  first_echo = gives (some 25000);
  second_echo = gives none;
}

abbrev number : ℕ → Word ℕ
number n = record { key = key_other; as_int = some (pos n); as_float = some (n * 1000) }

abbrev word : Key → Word ℕ
word k = record { key = k; as_int = none; as_float = none }

-- A drive along the line, and two commands for servo motors, of which one is out of range.
abbrev commands : List (Event ℕ)
commands =
    command (word key_1 ∷ [])
    ∷ thread 0 input
    ∷ command (word key_servo ∷ number 3 ∷ number 90 ∷ [])
    ∷ command (word key_servo ∷ number 16 ∷ number 90 ∷ [])
    ∷ []

robot_never_reverses_example :
    IsDriven 70 (history to_int commands (initial_robot (loaded (some servos)))).motor_controller
robot_never_reverses_example = robot_never_reverses to_int (loaded (some servos)) commands

line_round-Shows_example :
    (t : AutonomousRobot ℕ) × ((line_following_mode_round input robot ≡ gives t)
      × Shows (line_table true false false) t)
line_round-Shows_example =
    line_round-Shows input (levels true false false) robot initial_gear idle refl refl refl refl

failed_echo_drives_on_example :
    (t : AutonomousRobot ℕ) × ((auto_navigation_mode_round input robot ≡ gives t)
      × Shows ((pos 50, pos 50), moving) t)
failed_echo_drives_on_example =
    failed_echo_drives_on input 25000 robot initial_gear idle refl refl refl refl refl refl refl
      refl refl refl

signal_stops_example :
    HasLeft 0 (history to_int (signal ∷ thread 0 input ∷ thread 0 input ∷ []) robot)
signal_stops_example = signal_stops to_int 0 input input robot refl

-- A line sensor that raises.
abbrev broken : Input ℕ
broken = record input { levels = raises }

failure_blocks_start_example :
    let t = happen to_int (thread 0 broken) robot in
    HasLeft 0 t × ((drive_in auto_navigation t).threads ≡ t.threads)
unfolding line_following_mode_round
failure_blocks_start_example =
    failure_blocks_start to_int 0 broken auto_navigation robot refl refl refl

-- The commands, the end of the program, and a step of the thread after it.
abbrev to_the_end : List (Event ℕ)
to_the_end = commands ++ (quit ∷ thread 0 input ∷ [])

history-Pulses_example :
    Pulses to_int (has_ended false to_the_end) (history to_int to_the_end robot).servo_controller
unfolding initial_robot initialize_hardware
history-Pulses_example = history-Pulses to_int false to_the_end robot tt

end_stays-ServosOff_example :
    ServosOff (history to_int (quit ∷ steps ((0, input) ∷ [])) robot).servo_controller
end_stays-ServosOff_example = end_stays-ServosOff to_int quit ((0, input) ∷ []) robot refl
