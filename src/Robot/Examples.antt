-- ===== src/Robot/Examples.antt =====
-- Runs of the program on concrete inputs; numbers are in thousandths.
use adeept_awr.Common.{
  ℕ, ◌+◌, ◌≡◌, ◌≢◌, refl, true, false, [], ◌∷◌, fixed_float, arith, raise, key_error,
}
use adeept_awr.Vocabulary.{safe, caution, dangerous, very_dangerous, unknown}
use adeept_awr.Motors.State.{halted}
use adeept_awr.Motors.Drive.{still, meaning, wheels}
use adeept_awr.Rotary.Examples.{on_left, circling, fixed_NotTwiceBoth}
use adeept_awr.Ultrasonic.Echo.{
  pulse, timed_out, valid_measurements, measure_distance_once_in_centimeters,
}
use adeept_awr.Ultrasonic.Measure.{
  get_ultra_reliable_distance_measurement, take_multiple_measurements_and_filter_noise, report,
}
use adeept_awr.Obstacle.Danger.{analyze_danger_level_from_distance}
use adeept_awr.Obstacle.Status.{
  status_of, adjust_danger, get_complete_obstacle_status_and_recommendation,
}
use adeept_awr.Ultrasonic.State.{
  initial_ultrasonic, update_sensor_reliability_score, get_sensor_health_status,
}
use adeept_awr.Robot.State.{Robot, initial_robot}
use adeept_awr.Robot.Fusion.{
  CycleInput, reduced, collect_all_sensor_data_and_analyze, run_one_complete_control_cycle,
}
use adeept_awr.Robot.Loop.{main_autonomous_driving_loop}
use adeept_awr.Robot.Cycle.{line_of, level_of, cycle-wheels}
use adeept_awr.Robot.Ending.{calm_cycles, danger_ends_drive}
use adeept_awr.Robot.Mirror.{mirror_input, mirror_robot, swap, wheels-mirror}

abbrev blank : Robot ℕ
blank = initial_robot

abbrev ready : Robot ℕ
ready = record {
  is_robot_running = false;
  should_stop_robot = false;
  total_control_loops = 0;
  is_ultrasonic_initialized = true;
  motors = record { are_motors_initialized = true; left = halted; right = halted };
  line_memory = circling;
  distances = initial_ultrasonic;
  avoidance = blank.avoidance;
}

abbrev input : ℕ → CycleInput ℕ
input t = record {
  sample = on_left;
  echoes = λ i. pulse t;
  distance_clock = 5000;
  avoidance_stamp = 5000;
  avoidance_clock = 5000;
}

-- 51 cm and 17 cm away
abbrev free : CycleInput ℕ
free = input 3

abbrev blocked : CycleInput ℕ
blocked = input 1

cycle-wheels_example :
    let (t, r) = run_one_complete_control_cycle blocked ready in
    let d = line_of blocked ready in
    (level_of blocked ready ≡ dangerous → (r ≡ raise key_error) × (t.motors ≡ ready.motors))
    × (level_of blocked ready ≡ very_dangerous → wheels t.motors ≡ (still, still))
    × (level_of blocked ready ≡ caution → wheels t.motors ≡ meaning d.action (reduced d.speed))
    × (level_of blocked ready ≡ safe → wheels t.motors ≡ meaning d.action d.speed)
    × (level_of blocked ready ≡ unknown → wheels t.motors ≡ meaning d.action d.speed)
cycle-wheels_example = cycle-wheels blocked ready refl

danger_ends_drive_example :
    let t = main_autonomous_driving_loop (free ∷ free ∷ []) ready in
    (t.total_control_loops
      ≡ 0 + calm_cycles (free ∷ free ∷ []) (record ready { is_robot_running = true }))
    × (t.avoidance ≡ ready.avoidance)
danger_ends_drive_example = danger_ends_drive (free ∷ free ∷ []) ready refl

abbrev signalled : Robot ℕ
signalled = record ready { should_stop_robot = true }

-- No echo comes back.
abbrev quiet : CycleInput ℕ
quiet = record free { echoes = λ i. timed_out }

quiet_level : level_of quiet ready ≡ unknown
unfolding collect_all_sensor_data_and_analyze get_complete_obstacle_status_and_recommendation
    get_ultra_reliable_distance_measurement take_multiple_measurements_and_filter_noise
    valid_measurements measure_distance_once_in_centimeters report status_of adjust_danger
    analyze_danger_level_from_distance update_sensor_reliability_score get_sensor_health_status
    initial_ultrasonic
quiet_level = refl

quiet_is_not_dangerous : level_of quiet ready ≢ dangerous
quiet_is_not_dangerous e = ground (arith, e, quiet_level)

wheels-mirror_example :
    wheels (run_one_complete_control_cycle (mirror_input quiet) (mirror_robot ready)).0.motors
    ≡ swap (wheels (run_one_complete_control_cycle quiet ready).0.motors)
wheels-mirror_example = wheels-mirror fixed_NotTwiceBoth quiet ready refl quiet_is_not_dangerous
