-- ===== src/LineFilter/Report.antt =====
-- The reading of one pin, the prediction of the next reading, and the status of the filter in
-- line_sensor_noise_filter.py. The main functions call none of the last two.
use adeept_awr.Common.{
  ℕ, ◌*◌, Bool, false, not, Option, none, some, List, map, Float, of_ℕ, if◌then◌else◌, ltb, length,
  count, last_n,
}
use adeept_awr.LineFilter.State.{LineSensorReading, PerSensor, FilterState}

-- What `GPIO` gives for a pin: a level, no library, where a value is drawn, or an exception.
pub data PinOutcome : Type 0 where
  is_high : Bool → PinOutcome
  drawn : Bool → PinOutcome
  failed : PinOutcome

-- The line is seen where the level is low.
unfoldable pub read_single_line_sensor_gpio : PinOutcome → Bool
read_single_line_sensor_gpio (is_high b) = not b
read_single_line_sensor_gpio (drawn b) = b
read_single_line_sensor_gpio failed = false

unfoldable pub read_all_three_line_sensors_once : PerSensor PinOutcome → PerSensor Bool
read_all_three_line_sensors_once pins = record {
  left = read_single_line_sensor_gpio pins.left;
  center = read_single_line_sensor_gpio pins.center;
  right = read_single_line_sensor_gpio pins.right;
}

abbrev is_true : Bool → Bool
is_true b = b

unfoldable pub predict_single_sensor_trend : List Bool → Bool
predict_single_sensor_trend values =
    if ltb (length values) 2 then false else ltb (length values) (2 * count is_true values)

pub record FilterReport {ℓ} (W : Type ℓ) : Type ℓ where
  pub total_measurements : ℕ
  pub successful_measurements : ℕ
  pub noise_detected : ℕ
  pub success_rate : W
  pub noise_rate : W
  pub sensor_reliability : PerSensor ℕ
  pub consecutive_errors : PerSensor ℕ
  pub system_healthy : Bool
  pub left_size : ℕ
  pub center_size : ℕ
  pub right_size : ℕ
  pub reliable_size : ℕ

module _ {ℓ} {W : Type ℓ} ⦃f : Float W⦄ where
  unfoldable pub predict_next_sensor_reading_based_on_trend :
      W → FilterState W → Option (LineSensorReading W)
  predict_next_sensor_reading_based_on_trend now s =
      let recent_readings = last_n 3 s.reliable_readings_history in
      if ltb (length s.reliable_readings_history) 3
      then none
      else some (record {
        left = predict_single_sensor_trend (map (λ r. r.left) recent_readings);
        center = predict_single_sensor_trend (map (λ r. r.center) recent_readings);
        right = predict_single_sensor_trend (map (λ r. r.right) recent_readings);
        timestamp = now;
        confidence = f.lit 7 10;
      })

  -- A count in percent of the samples.
  abbrev pub rate : ℕ → ℕ → W
  rate n total = f.mul (f.div (of_ℕ n) (of_ℕ (if ltb 1 total then total else 1))) (of_ℕ 100)

  unfoldable pub get_line_sensor_filter_status : FilterState W → FilterReport W
  get_line_sensor_filter_status s =
      let st = s.filter_status in
      record {
        total_measurements = st.total_measurements;
        successful_measurements = st.filtered_measurements;
        noise_detected = st.noise_detected_count;
        success_rate = rate st.filtered_measurements st.total_measurements;
        noise_rate = rate st.noise_detected_count st.total_measurements;
        sensor_reliability = st.sensor_reliability_scores;
        consecutive_errors = st.consecutive_error_counts;
        system_healthy = st.is_system_healthy;
        left_size = length s.left_sensor_history;
        center_size = length s.center_sensor_history;
        right_size = length s.right_sensor_history;
        reliable_size = length s.reliable_readings_history;
      }
