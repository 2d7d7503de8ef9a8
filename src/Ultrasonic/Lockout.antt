-- ===== src/Ultrasonic/Lockout.antt =====
-- A distance that jumps is refused for as long as it stays away from the last reliable one.
use adeept_awr.Common.{
  ℕ, ◌+◌, ◌-◌, ◌*◌, ◌≤◌, ◌≡◌, refl, ap, ◌∙◌, true, false, none, some, List, [], ◌∷◌, Float, of_ℕ,
  arith, ltb, All, length, from_end,
}
use adeept_awr.Ultrasonic.State.{UltrasonicFilter, update_sensor_reliability_score}
use adeept_awr.Ultrasonic.Filter.{
  check_if_measurement_is_reasonable_change, find_most_reliable_value_from_multiple_measurements,
  is_reasonable, change_rate,
}
use adeept_awr.Ultrasonic.Measure.{
  Sounding, measurements, reject, judge, filter_noise, take_multiple_measurements_and_filter_noise,
  report, get_ultra_reliable_distance_measurement, run,
}

module _ {ℓ} {W : Type ℓ} ⦃f : Float W⦄ where
  -- Enough is measured, and it is more than 50 cm in a second away from the last reliable distance,
  -- for the time since the measurement before.
  pub record IsJump (last before : W) (m : Sounding W) : Type ℓ where
    pub distance : W
    pub enough : 2 ≤ length (measurements m)
    pub found : find_most_reliable_value_from_multiple_measurements (measurements m) ≡ some distance
    pub fast : f.lt (of_ℕ 50) (change_rate distance last (f.sub m.clock before)) ≡ true

  abbrev pub Jumps : W → W → List (Sounding W) → Type ℓ
  Jumps last before [] = Unit
  Jumps last before (m ∷ ms) = IsJump last before m × Jumps last m.clock ms

  -- What `n` refused measurements leave.
  pub record After (n : ℕ) (s t : UltrasonicFilter W) : Type ℓ where
    pub reliable : t.reliable_distance_history ≡ s.reliable_distance_history
    pub filtered : t.filtered_distance_history ≡ s.filtered_distance_history
    pub score : t.sensor_reliability_score ≡ s.sensor_reliability_score - 5 * n
    pub bad : t.consecutive_bad_readings ≡ s.consecutive_bad_readings + n
    pub noise : t.noise_detected_count ≡ s.noise_detected_count + n

  jump_step :
      (m : Sounding W) (s : UltrasonicFilter W) (last : W)
      → from_end s.reliable_distance_history 0 ≡ some last
      → IsJump last s.last_measurement_time m
      → let (t, r) = get_ultra_reliable_distance_measurement m s in
        After 1 s t
        × (t.last_measurement_time ≡ m.clock)
        × (r.distance_cm ≡ none)
        × (10 ≤ t.consecutive_bad_readings → t.is_sensor_working_properly ≡ false)
  unfolding get_ultra_reliable_distance_measurement take_multiple_measurements_and_filter_noise
      filter_noise judge reject check_if_measurement_is_reasonable_change is_reasonable
      update_sensor_reliability_score report
  jump_step m s last e j =
      let e1 : ltb (length (measurements m)) 2 ≡ false = let h = j.enough in ground arith in
      rw (e1, j.found, e, j.fast) (ground arith)

  -- As long as every new distance is more than 50 cm in a second away from the last reliable one,
  -- for the time since the measurement before, no distance is returned and the histories stay as
  -- they are, so the filter does not take up the new distance: each measurement takes 5 from the
  -- score, down to 0, and counts as noise and as a bad reading; after ten the sensor is declared not
  -- working.
  pub locks_out :
      (ms : List (Sounding W)) (s : UltrasonicFilter W) (last : W)
      → from_end s.reliable_distance_history 0 ≡ some last
      → (10 ≤ s.consecutive_bad_readings → s.is_sensor_working_properly ≡ false)
      → Jumps last s.last_measurement_time ms
      → let (t, rs) = run ms s in
        After (length ms) s t
        × All (λ r. r.distance_cm ≡ none) rs
        × (10 ≤ s.consecutive_bad_readings + length ms → t.is_sensor_working_properly ≡ false)
  unfolding run
  locks_out [] s last e w j = (
    record {
      reliable = refl;
      filtered = refl;
      score = omega arith;
      bad = omega arith;
      noise = omega arith;
    },
    tt,
    ground arith,
  )
  locks_out (m ∷ ms) s last e w (j, js) =
      let (step, clocked, unmeasured, broken) = jump_step m s last e j in
      let t = (get_ultra_reliable_distance_measurement m s).0 in
      let (after, all, working) =
        locks_out ms t last (ap (λ (l : List W). from_end l 0) step.reliable ∙ e) broken
          (rw clocked js) in
      (
        record {
          reliable = after.reliable ∙ step.reliable;
          filtered = after.filtered ∙ step.filtered;
          score = omega (arith, after.score, step.score);
          bad = omega (arith, after.bad, step.bad);
          noise = omega (arith, after.noise, step.noise);
        },
        (unmeasured, all),
        λ h. working (omega (arith, step.bad)),
      )
