-- ===== src/LineFilter/Invariant.antt =====
-- The state of the noise filter over a run: sizes, scores, health and the counts of measurements.
use adeept_awr.Common.{
  ◌+◌, ◌*◌, ◌≤◌, ◌≡◌, Bool, true, false, List, [], ◌∷◌, Float, arith, length, push, length-push,
  Result, ok, raise,
}
use adeept_awr.LineFilter.State.{
  LineSensorReading, FilterState, LineSensorFilterStatus, initial_filter, fresh_status,
}
use adeept_awr.LineFilter.Consistency.{
  is_healthy, check_sensor_reading_consistency, update_sensor_reliability_scores,
}
use adeept_awr.LineFilter.Reading.{
  Measurement, take_samples, record_samples, settle, take_multiple_sensor_samples_and_filter,
  get_filtered_line_sensor_reading, run,
}
use adeept_awr.LineFilter.Outcomes.{measured}

-- All three sensors have one score, of at most 100, and one count of errors.
pub record StatusValid (st : LineSensorFilterStatus) : Type 0 where
  pub scores_agree_left : st.sensor_reliability_scores.left ≡ st.sensor_reliability_scores.center
  pub scores_agree_right : st.sensor_reliability_scores.right ≡ st.sensor_reliability_scores.center
  pub score_bound : st.sensor_reliability_scores.center ≤ 100
  pub errors_agree_left : st.consecutive_error_counts.left ≡ st.consecutive_error_counts.center
  pub errors_agree_right : st.consecutive_error_counts.right ≡ st.consecutive_error_counts.center
  pub health :
      st.is_system_healthy ≡ is_healthy st.sensor_reliability_scores st.consecutive_error_counts
  pub accounted : 5 * (st.filtered_measurements + st.noise_detected_count) ≤ st.total_measurements

pub record FilterValid {ℓ} {W : Type ℓ} (s : FilterState W) : Type 0 where
  pub left_size : length s.left_sensor_history ≤ 20
  pub center_size : length s.center_sensor_history ≡ length s.left_sensor_history
  pub right_size : length s.right_sensor_history ≡ length s.left_sensor_history
  pub reliable_size : length s.reliable_readings_history ≤ 10
  pub status : StatusValid s.filter_status

module _ {ℓ} {W : Type ℓ} ⦃f : Float W⦄ where
  pub initial-FilterValid : FilterValid (initial_filter {W = W})
  unfolding initial_filter fresh_status is_healthy
  initial-FilterValid = ground arith

  sizes-FilterValid :
      (r : LineSensorReading W) (s : FilterState W)
      → FilterValid s
      → let s' = record_samples 5 r s in
        (length s'.left_sensor_history ≤ 20)
        × (length s'.center_sensor_history ≡ length s'.left_sensor_history)
        × (length s'.right_sensor_history ≡ length s'.left_sensor_history)
        × (length (push 10 s.reliable_readings_history r) ≤ 10)
  unfolding record_samples
  sizes-FilterValid r s v =
      let l = length-push 20 s.left_sensor_history r.left in
      let c = length-push 20 s.center_sensor_history r.center in
      let e = length-push 20 s.right_sensor_history r.right in
      let k = length-push 10 s.reliable_readings_history r in ground arith

  settle-FilterValid :
      (r : LineSensorReading W) (end : W) (c : Result Bool) (s : FilterState W)
      → FilterValid s
      → FilterValid (settle r end c (record_samples 5 r s)).0
  unfolding settle record_samples update_sensor_reliability_scores
  settle-FilterValid r end (raise e) s v = let n = sizes-FilterValid r s v in ground arith
  settle-FilterValid r end (ok true) s v = let n = sizes-FilterValid r s v in ground arith
  settle-FilterValid r end (ok false) s v = let n = sizes-FilterValid r s v in ground arith

  reading-FilterValid :
      (m : Measurement W) (s : FilterState W)
      → FilterValid s
      → FilterValid (get_filtered_line_sensor_reading m s).0
  unfolding get_filtered_line_sensor_reading take_multiple_sensor_samples_and_filter take_samples
  reading-FilterValid m s v =
      settle-FilterValid (measured m) m.end
        (check_sensor_reading_consistency (measured m) (record_samples 5 (measured m) s)) s v

  -- Over any calls: the three histories stay of one size, at most 20, and the reliable readings at
  -- most 10; the sensors keep one common score, at most 100, and one count of errors; the health is
  -- the test of these; and every filtered or rejected measurement has its five samples counted.
  pub run-FilterValid :
      (ms : List (Measurement W)) (s : FilterState W) → FilterValid s → FilterValid (run ms s).0
  unfolding run
  run-FilterValid [] s v = v
  run-FilterValid (m ∷ ms) s v =
      run-FilterValid ms (get_filtered_line_sensor_reading m s).0 (reading-FilterValid m s v)
