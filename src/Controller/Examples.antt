-- ===== src/Controller/Examples.antt =====
-- The class-based robot on concrete inputs; numbers are in thousandths.
use adeept_awr.Controller.Line.{normal, entering_rotary}
use adeept_awr.Common.{last_n}
use adeept_awr.Common.{
  ℕ, ◌≡◌, refl, true, false, none, some, List, [], ◌∷◌, fixed_float, push, sort, insert,
}
use adeept_awr.Vocabulary.{left, right, center}
use adeept_awr.Controller.Rotary.{
  Analyzer, add_observation, update_consecutive_counters, update_rotary_state, detect_rotary_entry,
}
use adeept_awr.Motors.State.{halted}
use adeept_awr.Motors.Drive.{ahead, still}
use adeept_awr.Ultrasonic.Echo.{pulse, average, measure_distance_once_in_centimeters, smooth}
use adeept_awr.Controller.Line.{Reading, LineCommand, forward, turn_right, dark, line_command}
use adeept_awr.Controller.Distance.{
  AvoidanceCommand, high, warning_level, get_distance_with_history, measure_distance_filtered,
  raw_distances, measure_distance_raw, avoidance_command,
}
use adeept_awr.Controller.Decision.{follow}
use adeept_awr.Controller.Operations.{
  AutonomousController, line_following_mode, moving, Thread, in_body, about_to, SensorInput,
  SensorData, Event, start, stop_requested, stop_finished, emergency_requested, step_of, history,
}
use adeept_awr.Motors.State.{works}
use adeept_awr.Controller.Session.{Hardware, types_s, types_q, meanwhile, main}
use adeept_awr.Controller.Ending.{IsReleased, main-IsReleased}
use adeept_awr.Controller.Safety.{LeftLoop, emergency_loses_race, near_obstacle_stops}

abbrev on_line : Reading
on_line = record dark { on_center = true }

abbrev ahead_command : LineCommand
ahead_command = line_command center on_line forward 100 10

abbrev veer : AvoidanceCommand ℕ
veer = avoidance_command (some 15000) warning_level turn_right 60 high

abbrev seen : SensorData ℕ
seen = record { line = ahead_command; distance = none; ultrasonic_command = veer }

-- The echoes of an obstacle at 8.5 cm.
abbrev input : SensorInput ℕ
input = record {
  first_pins = some on_line;
  second_pins = some on_line;
  line_clock = 5000;
  echoes = λ i j. pulse 1;
}

abbrev driving : Thread ℕ → AutonomousController ℕ
driving t = record {
  current_mode = line_following_mode;
  is_running = true;
  is_emergency = false;
  loop_count = 3;
  led = moving;
  motors = record { are_motors_initialized = true; left = halted; right = halted };
  line = record { is_initialized = true; sensor_history = [] };
  enhanced_line_sensor = none;
  distance = record { is_initialized = true; distance_history = [] };
  threads = t ∷ [];
  is_stopping = false;
}

abbrev events : List (Event ℕ)
events =
    step_of 0 input
    ∷ emergency_requested
    ∷ start line_following_mode
    ∷ stop_requested
    ∷ step_of 1 input
    ∷ stop_finished
    ∷ []

emergency_loses_race_example :
    LeftLoop 0
      (ahead 100, ahead 100)
      (history
        (emergency_requested ∷ step_of 0 input ∷ step_of 0 input ∷ [])
        (driving (about_to (follow ahead_command 100) seen)))
emergency_loses_race_example =
    emergency_loses_race 0 input input (follow ahead_command 100) seen
      (driving (about_to (follow ahead_command 100) seen)) refl refl refl

-- Four distances of 2 cm, and then one of 17 cm: 5 cm on the average.
abbrev close : AutonomousController ℕ
close = record (driving in_body) {
  distance = record { is_initialized = true; distance_history = 2000 ∷ 2000 ∷ 2000 ∷ 2000 ∷ [] };
}

near_obstacle_stops_example :
    LeftLoop 0
      (still, still)
      (history (step_of 0 input ∷ step_of 0 input ∷ step_of 0 input ∷ []) close)
unfolding get_distance_with_history measure_distance_filtered raw_distances measure_distance_raw
    average measure_distance_once_in_centimeters smooth push sort insert
near_obstacle_stops_example = near_obstacle_stops 0 input input input 5000 close refl refl refl refl

abbrev watching : Analyzer ℕ
watching = record {
  direction_history = left ∷ right ∷ left ∷ right ∷ left ∷ [];
  position_history = [];
  consecutive_left = 1;
  consecutive_right = 0;
  consecutive_center = 0;
  consecutive_lost = 0;
  current_rotary_state = normal;
  rotary_entry_time = 0;
  in_rotary_duration = 0;
}

-- The sixth position, on the other side again, is the entry of a rotary.
enters_at_sixth :
    (add_observation right on_line 7000 watching).current_rotary_state ≡ entering_rotary
unfolding add_observation update_consecutive_counters update_rotary_state detect_rotary_entry push
    last_n
enters_at_sixth = refl

abbrev with_rotary : AutonomousController ℕ
with_rotary = record (driving in_body) { enhanced_line_sensor = some watching }

abbrev all_works : Hardware ℕ
all_works = record {
  line_works = true;
  ultrasonic_works = true;
  motors_work = works;
  led_works = true;
  rotary_sensor = none;
}

abbrev fresh : AutonomousController ℕ
fresh = record (driving in_body) {
  motors = record { are_motors_initialized = false; left = halted; right = halted };
  is_running = false;
  threads = [];
}

-- The thread is in its body when the user quits, and goes on after the cleanup.
main-IsReleased_example :
    IsReleased
      (history (step_of 0 input ∷ step_of 0 input ∷ []) (
        main all_works
          (types_s ∷ meanwhile (step_of 0 input) ∷ types_q ∷ [])
          (step_of 0 input ∷ [])
          fresh)).motors
main-IsReleased_example =
    main-IsReleased all_works (types_s ∷ meanwhile (step_of 0 input) ∷ types_q ∷ [])
      (step_of 0 input ∷ []) (step_of 0 input ∷ step_of 0 input ∷ []) fresh
      (record { not_ready = refl; left_halted = refl; right_halted = refl })
