-- ===== src/FunctionalCar/State.antt =====
-- The globals of functional_line_car_v2.py, and the two functions that read a sensor. A `None` in
-- the place of a controller is a simulation.
use adeept_awr.Common.{
  ℕ, Bool, true, false, Option, none, some, Float, of_ℕ, if◌then◌else◌, Answer, gives, raises, ℤ,
  pos, negsuc,
}
use adeept_awr.Hardware.{Gear, initial_gear, Levels, get_line_position}

pub record Statistics {ℓ} (W : Type ℓ) : Type ℓ where
  pub start_time : W
  pub total_driving_time : W
  pub left_turn_count : ℕ
  pub right_turn_count : ℕ
  pub line_lost_count : ℕ
  pub obstacle_detected_count : ℕ
  pub avoidance_action_count : ℕ

pub record Car {ℓ} (W : Type ℓ) : Type ℓ where
  pub line_sensor : Bool
  pub motor_controller : Option Gear
  pub ultrasonic_sensor : Bool
  pub is_running : Bool
  -- in tenths
  pub last_line_position : ℤ
  pub line_lost_counter : ℕ
  pub obstacle_avoidance_active : Bool
  pub avoidance_stage : ℕ
  pub avoidance_start_time : W
  pub statistics : Statistics W

-- Which controllers could be made before an exception, if one came.
pub data Loading : Type 0 where
  all_loaded not_available line_sensor_fails motors_fail ultrasonic_fails : Loading

-- What `random.choice(scenarios)` chooses.
pub data Scenario : Type 0 where
  center slightly_left slightly_right far_left far_right no_line : Scenario

-- What one round of the control loop reads. The last four fields are for a simulation.
pub record Input {ℓ} (W : Type ℓ) : Type ℓ where
  pub now : W
  pub levels : Answer Levels
  pub echo : Answer (Option W)
  pub scenario : Scenario
  pub random : W
  pub randint_near : W
  pub randint_far : W

unfoldable pub scenario_position : Scenario → Option ℤ
scenario_position center = some (pos 0)
scenario_position slightly_left = some (negsuc 2)
scenario_position slightly_right = some (pos 3)
scenario_position far_left = some (negsuc 7)
scenario_position far_right = some (pos 8)
scenario_position no_line = none

abbrev pub seen_position : Answer Levels → Option ℤ
seen_position (gives s) = get_line_position s
seen_position raises = none

module _ {ℓ} {W : Type ℓ} where
  unfoldable pub initialize_hardware : Loading → Car W → Car W × Bool
  initialize_hardware all_loaded s = (
    record s { line_sensor = true; motor_controller = some initial_gear; ultrasonic_sensor = true },
    true,
  )
  initialize_hardware not_available s = (s, false)
  initialize_hardware line_sensor_fails s = (s, false)
  initialize_hardware motors_fail s = (record s { line_sensor = true }, false)
  initialize_hardware ultrasonic_fails s =
      (record s { line_sensor = true; motor_controller = some initial_gear }, false)

  -- The position; the description and the pattern are only printed.
  unfoldable pub read_line_sensor_data : Input W → Car W → Option ℤ
  unfolding scenario_position
  read_line_sensor_data i s =
      if s.line_sensor then seen_position i.levels else scenario_position i.scenario

module _ {ℓ} {W : Type ℓ} ⦃f : Float W⦄ where
  -- The globals when the module is loaded.
  unfoldable pub initial_car : Car W
  initial_car = record {
    line_sensor = false;
    motor_controller = none;
    ultrasonic_sensor = false;
    is_running = false;
    last_line_position = pos 0;
    line_lost_counter = 0;
    obstacle_avoidance_active = false;
    avoidance_stage = 0;
    avoidance_start_time = of_ℕ 0;
    statistics = record {
      start_time = of_ℕ 0;
      total_driving_time = of_ℕ 0;
      left_turn_count = 0;
      right_turn_count = 0;
      line_lost_count = 0;
      obstacle_detected_count = 0;
      avoidance_action_count = 0;
    };
  }

  abbrev pub distance_or_far : Answer (Option W) → W
  distance_or_far (gives (some d)) = d
  distance_or_far (gives none) = of_ℕ 999
  distance_or_far raises = of_ℕ 999

  unfoldable pub measure_ultrasonic_distance : Input W → Car W → W
  measure_ultrasonic_distance i s =
      if s.ultrasonic_sensor
      then distance_or_far i.echo
      else if f.lt i.random (f.lit 1 10)
      then i.randint_near
      else i.randint_far
