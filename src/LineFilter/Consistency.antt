-- ===== src/LineFilter/Consistency.antt =====
-- `check_sensor_reading_consistency` and `update_sensor_reliability_scores` of
-- line_sensor_noise_filter.py.
use adeept_awr.Common.{
  ℕ, ◌+◌, ◌-◌, ◌*◌, Bool, true, false, ◌&&◌, ◌||◌, Option, none, some, List, [], ◌∷◌, if◌then◌else◌,
  ltb, leb, ◌==◌, length, last_n, from_end, Result, ok, raise, type_error,
}
use adeept_awr.LineFilter.State.{
  LineSensorReading, one_if, count_active_sensors, PerSensor, LineSensorFilterStatus, FilterState,
}

abbrev pub differs : Bool → Bool → Bool
differs true true = false
differs false false = false
differs _ _ = true

module _ {ℓ} {W : Type ℓ} where
  abbrev pub changed_sensors : LineSensorReading W → LineSensorReading W → ℕ
  changed_sensors a b =
      one_if (differs a.left b.left)
      + one_if (differs a.center b.center)
      + one_if (differs a.right b.right)

  -- The loop over the sensors: a history of five values or more is a `deque`, and taking a slice of
  -- it raises.
  unfoldable pub check_change_rates : FilterState W → Result Bool → Result Bool
  check_change_rates s rest =
      if leb 5 (length s.left_sensor_history)
        || leb 5 (length s.center_sensor_history)
        || leb 5 (length s.right_sensor_history)
      then raise type_error
      else rest

  active_total : List (LineSensorReading W) → ℕ
  active_total [] = 0
  active_total (r ∷ rs) = count_active_sensors r + active_total rs

  -- The number of active sensors is more than 2 from its mean over the last three readings; both
  -- sides are taken three times.
  unfoldable pub is_count_jump : LineSensorReading W → List (LineSensorReading W) → Bool
  unfolding active_total
  is_count_jump new recent =
      let total = active_total (last_n 3 recent) in
      let now = 3 * count_active_sensors new in ltb 6 (now - total) || ltb 6 (total - now)

  unfoldable pub check_pattern : LineSensorReading W → List (LineSensorReading W) → Result Bool
  unfolding is_count_jump
  check_pattern new recent =
      ok (if leb 3 (length recent) && is_count_jump new recent then false else true)

  unfoldable pub check_against : LineSensorReading W → Option (LineSensorReading W) → Bool
  check_against new none = false
  check_against new (some last_reading) = changed_sensors new last_reading == 3

  unfoldable pub check_sensor_reading_consistency :
      LineSensorReading W → FilterState W → Result Bool
  unfolding check_change_rates check_pattern check_against
  check_sensor_reading_consistency new s =
      if ltb (length s.reliable_readings_history) 2
      then ok true
      else let recent_readings = last_n 5 s.reliable_readings_history in
        if check_against new (from_end recent_readings 0)
        then ok false
        else check_change_rates s (check_pattern new recent_readings)

-- One sensor's score and count of errors.
abbrev pub score_after : Bool → ℕ → ℕ
score_after good n = if good then (if ltb 100 (n + 2) then 100 else n + 2) else n - 5

abbrev pub errors_after : Bool → ℕ → ℕ
errors_after good n = if good then 0 else n + 1

abbrev pub per_sensor {ℓ} : {A : Type ℓ} → (A → A) → PerSensor A → PerSensor A
per_sensor g p = record { left = g p.left; center = g p.center; right = g p.right }

-- The mean score is at least 70, and no count of errors is 5.
unfoldable pub is_healthy : PerSensor ℕ → PerSensor ℕ → Bool
is_healthy scores errors =
    leb 210 (scores.left + scores.center + scores.right)
    && (ltb errors.left 5 && ltb errors.center 5 && ltb errors.right 5)

unfoldable pub update_sensor_reliability_scores :
    Bool → LineSensorFilterStatus → LineSensorFilterStatus
unfolding is_healthy
update_sensor_reliability_scores good st =
    let scores = per_sensor (score_after good) st.sensor_reliability_scores in
    let errors = per_sensor (errors_after good) st.consecutive_error_counts in
    record st {
      sensor_reliability_scores = scores;
      consecutive_error_counts = errors;
      is_system_healthy = is_healthy scores errors;
    }
