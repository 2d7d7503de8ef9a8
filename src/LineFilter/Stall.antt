-- ===== src/LineFilter/Stall.antt =====
-- The histories fill up, and no measurement is accepted any more.
use adeept_awr.Common.{
  ℕ, ◌+◌, ◌-◌, ◌≤◌, ◌≡◌, refl, Bool, true, false, List, [], ◌∷◌, Float, arith, length, count,
  length-push, if◌then◌else◌, Result, ok, raise, ◌⊎◌, inr,
}
use adeept_awr.LineFilter.State.{
  LineSensorReading, FilterState, initial_filter, reset_line_sensor_filter_system,
}
use adeept_awr.LineFilter.Consistency.{
  check_change_rates, check_pattern, check_sensor_reading_consistency,
}
use adeept_awr.LineFilter.Reading.{
  Measurement, MeasurementQuality, good, FilteredReading, take_samples, record_samples, settle,
  present, back_up, from_reading, safe_default, take_multiple_sensor_samples_and_filter,
  get_filtered_line_sensor_reading, run,
}
use adeept_awr.LineFilter.Outcomes.{measured}

abbrev is_good_quality : MeasurementQuality → Bool
is_good_quality good = true
is_good_quality _ = false

-- The reading of a call was measured and accepted.
abbrev pub is_good {ℓ} : {W : Type ℓ} → Result (FilteredReading W) → Bool
is_good (ok r) = is_good_quality r.measurement_quality
is_good (raise e) = false

-- How many measurements can still be accepted.
abbrev left_over {ℓ} : {W : Type ℓ} → FilterState W → ℕ
left_over s = 4 - length s.left_sensor_history

-- The first two measurements are accepted.
abbrev IsWarm {ℓ} : {W : Type ℓ} → FilterState W → Type 0
IsWarm s =
    (2 ≤ length s.reliable_readings_history)
    ⊎ (length s.left_sensor_history ≤ length s.reliable_readings_history)

module _ {ℓ} {W : Type ℓ} ⦃f : Float W⦄ where
  full_is_refused :
      (r : LineSensorReading W) (s : FilterState W)
      → 2 ≤ length s.reliable_readings_history
      → 5 ≤ length s.left_sensor_history
      → (check_sensor_reading_consistency r s ≡ ok true)
      → ⊥
  unfolding check_sensor_reading_consistency check_change_rates
  full_is_refused r s two five e = ground arith

  refusal_needs_two :
      (c : Result Bool) (r : LineSensorReading W) (s : FilterState W)
      → check_sensor_reading_consistency r s ≡ c
      → (c ≡ ok true) ⊎ (2 ≤ length s.reliable_readings_history)
  unfolding check_sensor_reading_consistency check_change_rates check_pattern
  refusal_needs_two c r s e = ground arith

  settle-left_over :
      (m : Measurement W) (c : Result Bool) (s : FilterState W)
      → let s' = record_samples 5 (measured m) s in
        check_sensor_reading_consistency (measured m) s' ≡ c
        → IsWarm s
        → let (t, r) = settle (measured m) m.end c s' in
          IsWarm t × ((if is_good (present m.now t r) then 1 else 0) + left_over t ≤ left_over s)
  unfolding settle present record_samples back_up from_reading safe_default
  settle-left_over m (raise e) s h w =
      let l = length-push 20 s.left_sensor_history (measured m).left in
      let two = refusal_needs_two (raise e) (measured m) (record_samples 5 (measured m) s) h in
      ground arith
  settle-left_over m (ok true) s h w =
      let l = length-push 20 s.left_sensor_history (measured m).left in
      let k = length-push 10 s.reliable_readings_history (measured m) in
      let full = full_is_refused (measured m) (record_samples 5 (measured m) s) in ground arith
  settle-left_over m (ok false) s h w =
      let l = length-push 20 s.left_sensor_history (measured m).left in
      let two = refusal_needs_two (ok false) (measured m) (record_samples 5 (measured m) s) h in
      ground arith

  reading-left_over :
      (m : Measurement W) (s : FilterState W)
      → IsWarm s
      → let (t, r) = get_filtered_line_sensor_reading m s in
        IsWarm t × ((if is_good r then 1 else 0) + left_over t ≤ left_over s)
  unfolding get_filtered_line_sensor_reading take_multiple_sensor_samples_and_filter take_samples
  reading-left_over m s w = settle-left_over m _ s refl w

  run-left_over :
      (ms : List (Measurement W)) (s : FilterState W)
      → IsWarm s
      → count is_good (run ms s).1 ≤ left_over s
  unfolding run
  run-left_over [] s w = omega arith
  run-left_over (m ∷ ms) s w =
      let (warm, step) = reading-left_over m s w in
      omega (arith, run-left_over ms (get_filtered_line_sensor_reading m s).0 warm)

  -- However many measurements follow a reset, at most four of them are accepted as `good`: from the
  -- fifth on, a call raises or returns a reading from the backup.
  pub at_most_four_good :
      (ms : List (Measurement W)) (s : FilterState W)
      → count is_good (run ms (reset_line_sensor_filter_system s)).1 ≤ 4
  unfolding reset_line_sensor_filter_system initial_filter
  at_most_four_good ms s = run-left_over ms (reset_line_sensor_filter_system s) (inr (omega arith))
