-- ===== src/Ultrasonic/State.antt =====
-- The globals of ultrasonic_noise_filter.py, the score of the sensor and its health. The score
-- starts at 100.0 and moves by 2.0 and 5.0 between 0.0 and 100.0, so it is a whole number, exact as
-- a float.
use adeept_awr.Common.{
  ℕ, ◌+◌, ◌-◌, Bool, true, false, List, [], Float, of_ℕ, if◌then◌else◌, ltb, leb,
}

pub record UltrasonicFilter {ℓ} (W : Type ℓ) : Type ℓ where
  pub raw_distance_measurements : List W
  pub filtered_distance_history : List W
  pub reliable_distance_history : List W
  pub total_measurements : ℕ
  pub filtered_out_count : ℕ
  pub noise_detected_count : ℕ
  pub last_measurement_time : W
  pub sensor_reliability_score : ℕ
  pub consecutive_bad_readings : ℕ
  pub is_sensor_working_properly : Bool

module _ {ℓ} {W : Type ℓ} where
  unfoldable pub update_sensor_reliability_score : Bool → UltrasonicFilter W → UltrasonicFilter W
  update_sensor_reliability_score measurement_was_good s =
      let n = s.sensor_reliability_score in
      let score =
        if measurement_was_good then (if ltb 100 (n + 2) then 100 else n + 2) else n - 5 in
      let bad = if measurement_was_good then 0 else s.consecutive_bad_readings + 1 in
      record s {
        sensor_reliability_score = score;
        consecutive_bad_readings = bad;
        is_sensor_working_properly =
            if leb 10 bad
            then false
            else if ltb 80 score
            then true
            else s.is_sensor_working_properly;
      }

pub data Health : Type 0 where
  excellent good fair poor critical : Health

pub data Confidence : Type 0 where
  very_high high medium low very_low : Confidence

abbrev pub health_status : ℕ → Health
health_status score =
    if leb 90 score
    then excellent
    else if leb 70 score
    then good
    else if leb 50 score
    then fair
    else if leb 30 score
    then poor
    else critical

abbrev pub confidence_level : ℕ → Confidence
confidence_level score =
    if leb 90 score
    then very_high
    else if leb 70 score
    then high
    else if leb 50 score
    then medium
    else if leb 30 score
    then low
    else very_low

pub record SensorHealth {ℓ} (W : Type ℓ) : Type ℓ where
  pub reliability_score : ℕ
  pub health : Health
  pub is_working_properly : Bool
  pub consecutive_bad_readings : ℕ
  pub total_measurements : ℕ
  pub noise_detection_rate : W

module _ {ℓ} {W : Type ℓ} ⦃f : Float W⦄ where
  unfoldable pub get_sensor_health_status : UltrasonicFilter W → SensorHealth W
  get_sensor_health_status s = record {
    reliability_score = s.sensor_reliability_score;
    health = health_status s.sensor_reliability_score;
    is_working_properly = s.is_sensor_working_properly;
    consecutive_bad_readings = s.consecutive_bad_readings;
    total_measurements = s.total_measurements;
    noise_detection_rate =
        f.mul
          (f.div (of_ℕ s.noise_detected_count)
            (of_ℕ (if ltb 1 s.total_measurements then s.total_measurements else 1)))
          (of_ℕ 100);
  }

  unfoldable pub initial_ultrasonic : UltrasonicFilter W
  initial_ultrasonic = record {
    raw_distance_measurements = [];
    filtered_distance_history = [];
    reliable_distance_history = [];
    total_measurements = 0;
    filtered_out_count = 0;
    noise_detected_count = 0;
    last_measurement_time = of_ℕ 0;
    sensor_reliability_score = 100;
    consecutive_bad_readings = 0;
    is_sensor_working_properly = true;
  }

  unfoldable pub reset_all_filter_systems : UltrasonicFilter W → UltrasonicFilter W
  unfolding initial_ultrasonic
  reset_all_filter_systems s = initial_ultrasonic
