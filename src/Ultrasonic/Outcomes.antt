-- ===== src/Ultrasonic/Outcomes.antt =====
-- What a measurement does to the histories and the score, on every branch.
use adeept_awr.Common.{
  ℕ, ◌+◌, ◌-◌, ◌≡◌, refl, Bool, false, Option, none, some, List, Float, if◌then◌else◌, ltb, length,
  from_end, push, push_all, Bool-cases, inl, inr,
}
use adeept_awr.Ultrasonic.State.{UltrasonicFilter, update_sensor_reliability_score}
use adeept_awr.Ultrasonic.Filter.{
  check_if_measurement_is_reasonable_change, find_most_reliable_value_from_multiple_measurements,
  is_reasonable, apply_moving_average_filter, check_measurement_consistency_over_time,
}
use adeept_awr.Ultrasonic.Measure.{
  Sounding, measurements, accept, reject, judge, filter_noise,
  take_multiple_measurements_and_filter_noise,
}

-- The score after one measurement.
abbrev pub next_score : Bool → ℕ → ℕ
next_score is_good n = if is_good then (if ltb 100 (n + 2) then 100 else n + 2) else n - 5

module _ {ℓ} {W : Type ℓ} ⦃f : Float W⦄ where
  -- The histories, the score and the bad readings before, the state after, and the distance that is
  -- returned.
  pub data Outcome (reliable filtered : List W) (score bad : ℕ)
      : UltrasonicFilter W → Option W → Type ℓ where
    refused :
        (t : UltrasonicFilter W)
        → t.reliable_distance_history ≡ reliable
        → t.filtered_distance_history ≡ filtered
        → t.sensor_reliability_score ≡ next_score false score
        → t.consecutive_bad_readings ≡ bad + 1
        → Outcome reliable filtered score bad t none
    measured :
        (t : UltrasonicFilter W) (estimate final_value : W)
        → t.reliable_distance_history ≡ push 10 reliable estimate
        → t.filtered_distance_history ≡ push 20 filtered final_value
        → t.sensor_reliability_score ≡ next_score (check_measurement_consistency_over_time t) score
        → t.consecutive_bad_readings
          ≡ (if check_measurement_consistency_over_time t then 0 else bad + 1)
        → Outcome reliable filtered score bad t (some final_value)

  -- The outcome of a call in a state.
  abbrev pub OutcomeIn : UltrasonicFilter W → UltrasonicFilter W → Option W → Type ℓ
  OutcomeIn s t r =
      Outcome s.reliable_distance_history s.filtered_distance_history s.sensor_reliability_score
        s.consecutive_bad_readings t r

  accept-OutcomeIn : (d : W) (s : UltrasonicFilter W) → let (t, r) = accept d s in OutcomeIn s t r
  unfolding accept apply_moving_average_filter update_sensor_reliability_score
      check_measurement_consistency_over_time
  accept-OutcomeIn d s = measured (accept d s).0 _ _ refl refl refl refl

  judge-OutcomeIn :
      (d now : W) (s : UltrasonicFilter W) → let (t, r) = judge d now s in OutcomeIn s t r
  unfolding judge reject check_if_measurement_is_reasonable_change update_sensor_reliability_score
  judge-OutcomeIn d now s =
      let s' = (check_if_measurement_is_reasonable_change d now s).0 in
      let interval = f.sub now s.last_measurement_time in
      elim (Bool-cases (is_reasonable d (from_end s.reliable_distance_history 0) interval)) [
        | inl e ↦ rw e (accept-OutcomeIn d s')
        | inr e ↦ rw e (refused (reject s').0 refl refl refl refl)
      ]

  filter-OutcomeIn :
      (d : Option W) (n : ℕ) (now : W) (s : UltrasonicFilter W)
      → let (t, r) = filter_noise d n now s in OutcomeIn s t r
  unfolding filter_noise update_sensor_reliability_score
  filter-OutcomeIn none n now s = refused (filter_noise none n now s).0 refl refl refl refl
  filter-OutcomeIn (some d) n now s = judge-OutcomeIn d now s

  -- A measurement that is refused returns no distance, keeps both histories, takes 5 from the score,
  -- which stops at 0, and counts a bad reading. One that returns a distance puts one value into each
  -- history; the score rises by 2, up to 100, if the last three reliable distances are consistent,
  -- and falls otherwise.
  pub measure-OutcomeIn :
      (m : Sounding W) (s : UltrasonicFilter W)
      → let (t, r) = take_multiple_measurements_and_filter_noise m s in OutcomeIn s t r
  unfolding take_multiple_measurements_and_filter_noise update_sensor_reliability_score
  measure-OutcomeIn m s =
      let ds = measurements m in
      let s' = record s {
        raw_distance_measurements = push_all 50 s.raw_distance_measurements ds;
        total_measurements = s.total_measurements + length ds;
      } in
      elim (Bool-cases (ltb (length ds) 2)) [
        | inl e ↦ rw e (refused (update_sensor_reliability_score false s') refl refl refl refl)
        | inr e ↦ rw e (
            filter-OutcomeIn (find_most_reliable_value_from_multiple_measurements ds) (length ds)
              m.clock s')
      ]
