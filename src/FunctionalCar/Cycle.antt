-- ===== src/FunctionalCar/Cycle.antt =====
-- A round of the control loop: the obstacle first, then the line.
use adeept_awr.Common.{◌+◌, Bool, true, false, some, Float, if◌then◌else◌}
use adeept_awr.FunctionalCar.State.{Car, Input, read_line_sensor_data, measure_ultrasonic_distance}
use adeept_awr.FunctionalCar.Turns.{drive_forward, forward_speed}
use adeept_awr.FunctionalCar.Stages.{
  ObstacleDanger, danger, warning, caution, safe, evaluate_obstacle_danger_level,
  start_obstacle_avoidance, process_avoidance_stages, apply_speed_reduction,
}
use adeept_awr.FunctionalCar.Following.{execute_line_following_control_logic}

pub data AvoidanceStatus : Type 0 where
  avoiding avoidance_completed avoidance_started avoidance_ready slowing_down : AvoidanceStatus
  safe_status : AvoidanceStatus

module _ {ℓ} {W : Type ℓ} where
  abbrev pub count_obstacle : Car W → Car W
  count_obstacle s = record s {
    statistics = record s.statistics {
      obstacle_detected_count = s.statistics.obstacle_detected_count + 1;
    };
  }

  abbrev pub status_of : Car W × Bool → Car W × AvoidanceStatus
  status_of (s, true) = (s, avoiding)
  status_of (s, false) = (s, avoidance_completed)

  -- What is done about an obstacle that is not being avoided yet; `now` is the clock.
  abbrev pub react_to : ObstacleDanger → W → Car W → Car W × AvoidanceStatus
  react_to danger now s = (start_obstacle_avoidance now (count_obstacle s), avoidance_started)
  react_to warning now s = (s, avoidance_ready)
  react_to caution now s =
      (drive_forward (some (apply_speed_reduction forward_speed 6)) s, slowing_down)
  react_to safe now s = (s, safe_status)

  -- The branches of a status other than `safe` print, and read the line sensor at most.
  abbrev pub drive_after : AvoidanceStatus → Input W → Car W → Car W
  drive_after safe_status i s = execute_line_following_control_logic (read_line_sensor_data i s) s
  drive_after _ i s = s

module _ {ℓ} {W : Type ℓ} ⦃f : Float W⦄ where
  unfoldable pub execute_obstacle_avoidance_control_logic : W → W → Car W → Car W × AvoidanceStatus
  execute_obstacle_avoidance_control_logic distance now s =
      if s.obstacle_avoidance_active
      then status_of (process_avoidance_stages now s)
      else react_to (evaluate_obstacle_danger_level distance) now s

  unfoldable pub execute_integrated_driving_control : Input W → Car W → Car W
  execute_integrated_driving_control i s =
      let (s', status) =
        execute_obstacle_avoidance_control_logic (measure_ultrasonic_distance i s) i.now s in
      drive_after status i s'
