-- ===== src/Ultrasonic/Measure.antt =====
-- `take_multiple_measurements_and_filter_noise` and `get_ultra_reliable_distance_measurement` of
-- ultrasonic_noise_filter.py, and a run over a sequence of calls.
use adeept_awr.Common.{
  ℕ, ◌+◌, Bool, false, Option, none, some, List, [], ◌∷◌, Float, if◌then◌else◌, ltb, length,
  from_end, push, push_all,
}
use adeept_awr.Ultrasonic.Echo.{Echo, valid_measurements}
use adeept_awr.Ultrasonic.State.{
  UltrasonicFilter, update_sensor_reliability_score, Confidence, confidence_level,
  get_sensor_health_status,
}
use adeept_awr.Ultrasonic.Filter.{
  check_if_measurement_is_reasonable_change, find_most_reliable_value_from_multiple_measurements,
  apply_moving_average_filter, apply_kalman_like_filter, check_measurement_consistency_over_time,
}

-- Whether the pins are set up, what they show of the five pulses, and the clock at the check of the
-- change.
pub record Sounding {ℓ} (W : Type ℓ) : Type ℓ where
  pub ready : Bool
  pub echoes : ℕ → Echo W
  pub clock : W

-- The returned dictionary.
pub record DistanceReport {ℓ} (W : Type ℓ) : Type ℓ where
  pub distance_cm : Option W
  pub confidence : Confidence
  pub reliability_score : ℕ
  pub is_sensor_healthy : Bool
  pub measurement_consistency : Bool
  pub raw_measurements_count : ℕ
  pub filtered_measurements_count : ℕ
  pub noise_detection_rate : W

module _ {ℓ} {W : Type ℓ} ⦃f : Float W⦄ where
  abbrev pub measurements : Sounding W → List W
  measurements m = valid_measurements m.ready m.echoes 0 5

  -- Steps 5 to 7: the filters, the score and the history.
  unfoldable pub accept : W → UltrasonicFilter W → UltrasonicFilter W × Option W
  accept d s =
      let previous_estimate = from_end s.reliable_distance_history 0 in
      let (s', final_value) =
        apply_moving_average_filter (apply_kalman_like_filter d previous_estimate s) s in
      let s'' = update_sensor_reliability_score (check_measurement_consistency_over_time s') s' in
      (
        record s'' {
          filtered_distance_history = push 20 s''.filtered_distance_history final_value;
        },
        some final_value,
      )

  unfoldable pub reject : UltrasonicFilter W → UltrasonicFilter W × Option W
  reject s = (
    update_sensor_reliability_score false
        (record s { noise_detected_count = s.noise_detected_count + 1 }),
    none,
  )

  -- Step 4: the change since the last reliable distance.
  unfoldable pub judge : W → W → UltrasonicFilter W → UltrasonicFilter W × Option W
  judge d now s =
      let (s', is_ok) = check_if_measurement_is_reasonable_change d now s in
      if is_ok then accept d s' else reject s'

  -- Step 3: what the most reliable of the measurements is.
  unfoldable pub filter_noise :
      Option W → ℕ → W → UltrasonicFilter W → UltrasonicFilter W × Option W
  filter_noise none n now s = (
    record (update_sensor_reliability_score false s) {
      filtered_out_count = s.filtered_out_count + n;
    },
    none,
  )
  filter_noise (some d) n now s = judge d now s

  -- Steps 1 and 2.
  unfoldable pub take_multiple_measurements_and_filter_noise :
      Sounding W → UltrasonicFilter W → UltrasonicFilter W × Option W
  take_multiple_measurements_and_filter_noise m s =
      let ds = measurements m in
      let s' = record s {
        raw_distance_measurements = push_all 50 s.raw_distance_measurements ds;
        total_measurements = s.total_measurements + length ds;
      } in
      if ltb (length ds) 2
      then (update_sensor_reliability_score false s', none)
      else filter_noise (find_most_reliable_value_from_multiple_measurements ds) (length ds) m.clock
          s'

  unfoldable pub report : Option W → UltrasonicFilter W → DistanceReport W
  report d s =
      let sensor_status = get_sensor_health_status s in
      record {
        distance_cm = d;
        confidence = confidence_level sensor_status.reliability_score;
        reliability_score = sensor_status.reliability_score;
        is_sensor_healthy = sensor_status.is_working_properly;
        measurement_consistency = check_measurement_consistency_over_time s;
        raw_measurements_count = length s.raw_distance_measurements;
        filtered_measurements_count = length s.filtered_distance_history;
        noise_detection_rate = sensor_status.noise_detection_rate;
      }

  unfoldable pub get_ultra_reliable_distance_measurement :
      Sounding W → UltrasonicFilter W → UltrasonicFilter W × DistanceReport W
  unfolding report
  get_ultra_reliable_distance_measurement m s =
      let (s', d) = take_multiple_measurements_and_filter_noise m s in (s', report d s')

  unfoldable pub run :
      List (Sounding W) → UltrasonicFilter W → UltrasonicFilter W × List (DistanceReport W)
  run [] s = (s, [])
  run (m ∷ ms) s =
      let (s', r) = get_ultra_reliable_distance_measurement m s in
      let (s'', rs) = run ms s' in (s'', r ∷ rs)
