-- ===== src/LineFilter/State.antt =====
-- The data classes and globals of line_sensor_noise_filter.py. The scores start at 100.0 and move by
-- 2.0 and 5.0 between 0.0 and 100.0, so they are whole numbers, exact as floats; they are modelled as
-- such. The texts for debugging are left out.
use adeept_awr.Common.{ℕ, ◌+◌, Bool, true, List, [], Float, of_ℕ, if◌then◌else◌}

pub record LineSensorReading {ℓ} (W : Type ℓ) : Type ℓ where
  pub left : Bool
  pub center : Bool
  pub right : Bool
  pub timestamp : W
  pub confidence : W

abbrev pub one_if : Bool → ℕ
one_if b = if b then 1 else 0

module _ {ℓ} {W : Type ℓ} where
  unfoldable pub to_tuple : LineSensorReading W → Bool × Bool × Bool
  to_tuple r = (r.left, r.center, r.right)

  abbrev pub count_active_sensors : LineSensorReading W → ℕ
  count_active_sensors r = one_if r.left + one_if r.center + one_if r.right

-- A value for each sensor.
pub record PerSensor {ℓ} (A : Type ℓ) : Type ℓ where
  pub left : A
  pub center : A
  pub right : A

pub record LineSensorFilterStatus : Type 0 where
  pub total_measurements : ℕ
  pub filtered_measurements : ℕ
  pub noise_detected_count : ℕ
  pub sensor_reliability_scores : PerSensor ℕ
  pub consecutive_error_counts : PerSensor ℕ
  pub is_system_healthy : Bool

pub record FilterState {ℓ} (W : Type ℓ) : Type ℓ where
  pub left_sensor_history : List Bool
  pub center_sensor_history : List Bool
  pub right_sensor_history : List Bool
  pub reliable_readings_history : List (LineSensorReading W)
  pub filter_status : LineSensorFilterStatus
  pub last_measurement_time : W

abbrev pub sensor_history_size : ℕ
sensor_history_size = 20

abbrev pub reliable_history_size : ℕ
reliable_history_size = 10

abbrev pub multiple_sample_count : ℕ
multiple_sample_count = 5

abbrev pub each {ℓ} : {A : Type ℓ} → A → PerSensor A
each a = record { left = a; center = a; right = a }

unfoldable pub fresh_status : LineSensorFilterStatus
fresh_status = record {
  total_measurements = 0;
  filtered_measurements = 0;
  noise_detected_count = 0;
  sensor_reliability_scores = each 100;
  consecutive_error_counts = each 0;
  is_system_healthy = true;
}

module _ {ℓ} {W : Type ℓ} ⦃f : Float W⦄ where
  unfoldable pub initial_filter : FilterState W
  unfolding fresh_status
  initial_filter = record {
    left_sensor_history = [];
    center_sensor_history = [];
    right_sensor_history = [];
    reliable_readings_history = [];
    filter_status = fresh_status;
    last_measurement_time = of_ℕ 0;
  }

  unfoldable pub reset_line_sensor_filter_system : FilterState W → FilterState W
  unfolding initial_filter
  reset_line_sensor_filter_system s = initial_filter
