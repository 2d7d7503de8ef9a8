-- ===== src/Ultrasonic/Invariant.antt =====
-- The sizes of the histories, the range of the score and the health over a run.
use adeept_awr.Common.{
  ℕ, ◌+◌, ◌≤◌, ◌≡◌, Bool, true, false, ◌⊎◌, inl, inr, Bool-cases, Option, none, some, List, [], ◌∷◌,
  Float, arith, ltb, length, from_end, push, push_all, length-push-le,
}
use adeept_awr.Ultrasonic.State.{
  UltrasonicFilter, update_sensor_reliability_score, initial_ultrasonic,
}
use adeept_awr.Ultrasonic.Filter.{
  check_if_measurement_is_reasonable_change, find_most_reliable_value_from_multiple_measurements,
  is_reasonable, apply_moving_average_filter, apply_kalman_like_filter,
  check_measurement_consistency_over_time,
}
use adeept_awr.Ultrasonic.Measure.{
  Sounding, measurements, accept, reject, judge, filter_noise,
  take_multiple_measurements_and_filter_noise, get_ultra_reliable_distance_measurement, run,
}

-- Of bad readings, ten in a row switch the sensor to not working, and a score above 80 is needed to
-- switch it back.
pub record IsSound {ℓ} {W : Type ℓ} (s : UltrasonicFilter W) : Type 0 where
  pub raw_size : length s.raw_distance_measurements ≤ 50
  pub filtered_size : length s.filtered_distance_history ≤ 20
  pub reliable_size : length s.reliable_distance_history ≤ 10
  pub score_bound : s.sensor_reliability_score ≤ 100
  pub many_bad : 10 ≤ s.consecutive_bad_readings → s.is_sensor_working_properly ≡ false
  pub not_working :
      s.is_sensor_working_properly ≡ false
      → 10 ≤ s.consecutive_bad_readings ⊎ (s.sensor_reliability_score ≤ 80)

push_all-size {ℓ} :
    {A : Type ℓ} (n : ℕ) (ys xs : List A) → length ys ≤ n → length (push_all n ys xs) ≤ n
unfolding push_all
push_all-size n ys [] h = h
push_all-size n ys (x ∷ xs) h = push_all-size n (push n ys x) xs (length-push-le n ys x h)

module _ {ℓ} {W : Type ℓ} ⦃f : Float W⦄ where
  update-IsSound :
      (good : Bool) (s : UltrasonicFilter W)
      → IsSound s
      → IsSound (update_sensor_reliability_score good s)
  unfolding update_sensor_reliability_score
  update-IsSound true s h = ground arith
  update-IsSound false s h = ground arith

  accept-IsSound : (d : W) (s : UltrasonicFilter W) → IsSound s → IsSound (accept d s).0
  unfolding accept apply_moving_average_filter
  accept-IsSound d s h =
      let estimate = apply_kalman_like_filter d (from_end s.reliable_distance_history 0) s in
      let s' = (apply_moving_average_filter estimate s).0 in
      let r = length-push-le 10 s.reliable_distance_history estimate h.reliable_size in
      let t = (update_sensor_reliability_score (check_measurement_consistency_over_time s') s') in
      let u = update-IsSound (check_measurement_consistency_over_time s') s' (record {
        raw_size = h.raw_size;
        filtered_size = h.filtered_size;
        reliable_size = r;
        score_bound = h.score_bound;
        many_bad = h.many_bad;
        not_working = h.not_working;
      }) in
      record {
        raw_size = u.raw_size;
        filtered_size =
            length-push-le 20 t.filtered_distance_history (apply_moving_average_filter estimate s).1
              u.filtered_size;
        reliable_size = u.reliable_size;
        score_bound = u.score_bound;
        many_bad = u.many_bad;
        not_working = u.not_working;
      }

  judge-IsSound : (d now : W) (s : UltrasonicFilter W) → IsSound s → IsSound (judge d now s).0
  unfolding judge reject check_if_measurement_is_reasonable_change
  judge-IsSound d now s h =
      let s' = (check_if_measurement_is_reasonable_change d now s).0 in
      let sound : IsSound s' = ground arith in
      let interval = f.sub now s.last_measurement_time in
      elim (Bool-cases (is_reasonable d (from_end s.reliable_distance_history 0) interval)) [
        | inl e ↦ rw e (accept-IsSound d s' sound)
        | inr e ↦ rw e (
            update-IsSound false (record s' { noise_detected_count = s'.noise_detected_count + 1 })
              (ground arith))
      ]

  filter-IsSound :
      (d : Option W) (n : ℕ) (now : W) (s : UltrasonicFilter W)
      → IsSound s
      → IsSound (filter_noise d n now s).0
  unfolding filter_noise
  filter-IsSound none n now s h = let u = update-IsSound false s h in ground arith
  filter-IsSound (some d) n now s h = judge-IsSound d now s h

  measure-IsSound :
      (m : Sounding W) (s : UltrasonicFilter W)
      → IsSound s
      → IsSound (take_multiple_measurements_and_filter_noise m s).0
  unfolding take_multiple_measurements_and_filter_noise
  measure-IsSound m s h =
      let ds = measurements m in
      let s' = record s {
        raw_distance_measurements = push_all 50 s.raw_distance_measurements ds;
        total_measurements = s.total_measurements + length ds;
      } in
      let raw = push_all-size 50 s.raw_distance_measurements ds h.raw_size in
      let sound : IsSound s' = ground arith in
      elim (Bool-cases (ltb (length ds) 2)) [
        | inl e ↦ rw e (update-IsSound false s' sound)
        | inr e ↦ rw e (
            filter-IsSound (find_most_reliable_value_from_multiple_measurements ds) (length ds)
              m.clock s' sound)
      ]

  -- Over any measurements the three histories hold at most 50, 20 and 10 distances and the score is
  -- at most 100; ten bad readings in a row mean that the sensor is not working, and a sensor that is
  -- not working has ten bad readings in a row or a score of at most 80.
  pub run-IsSound :
      (ms : List (Sounding W)) (s : UltrasonicFilter W) → IsSound s → IsSound (run ms s).0
  unfolding run get_ultra_reliable_distance_measurement
  run-IsSound [] s h = h
  run-IsSound (m ∷ ms) s h =
      run-IsSound ms (take_multiple_measurements_and_filter_noise m s).0 (measure-IsSound m s h)

  pub initial-IsSound : IsSound (initial_ultrasonic {W = W})
  unfolding initial_ultrasonic
  initial-IsSound = ground arith
