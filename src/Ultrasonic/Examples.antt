-- ===== src/Ultrasonic/Examples.antt =====
-- Runs of the ultrasonic sensor on concrete echoes; numbers are in thousandths.
use adeept_awr.Common.{
  ℕ, ◌+◌, ◌≤◌, ◌≡◌, refl, true, false, none, List, [], ◌∷◌, fixed_float, arith, All, from_end, sort,
  insert, median,
}
use adeept_awr.Ultrasonic.Echo.{
  Echo, pulse, measure_distance_once_in_centimeters, valid_measurements,
}
use adeept_awr.Ultrasonic.State.{UltrasonicFilter, initial_ultrasonic}
use adeept_awr.Ultrasonic.Filter.{
  is_distance_measurement_physically_possible, find_most_reliable_value_from_multiple_measurements,
  without_outliers, physically_possible, most_reliable,
}
use adeept_awr.Ultrasonic.Measure.{Sounding, take_multiple_measurements_and_filter_noise, run}
use adeept_awr.Ultrasonic.Outcomes.{OutcomeIn, measure-OutcomeIn}
use adeept_awr.Ultrasonic.Lockout.{IsJump, After, locks_out}

-- An echo after 0.003 seconds is 51 cm away, one after 0.001 seconds 17 cm.
abbrev steady : ℕ → Echo ℕ
steady i = pulse 3

abbrev near : ℕ → Echo ℕ
near i = pulse 1

abbrev sounding : (ℕ → Echo ℕ) → ℕ → Sounding ℕ
sounding echoes clock = record { ready = true; echoes = echoes; clock = clock }

abbrev fresh : UltrasonicFilter ℕ
fresh = initial_ultrasonic

-- The sensor saw 17 cm at 1 second.
abbrev settled : UltrasonicFilter ℕ
settled = record {
  raw_distance_measurements = [];
  filtered_distance_history = [];
  reliable_distance_history = 17000 ∷ [];
  total_measurements = 5;
  filtered_out_count = 0;
  noise_detected_count = 0;
  last_measurement_time = 1000;
  sensor_reliability_score = 100;
  consecutive_bad_readings = 0;
  is_sensor_working_properly = true;
}

measure-OutcomeIn_example :
    let (t, r) = take_multiple_measurements_and_filter_noise (sounding steady 1000) fresh in
    OutcomeIn fresh t r
measure-OutcomeIn_example = measure-OutcomeIn (sounding steady 1000) fresh

-- Three measurements of 51 cm, 0.1 seconds apart.
abbrev far : List (Sounding ℕ)
far = sounding steady 1100 ∷ sounding steady 1200 ∷ sounding steady 1300 ∷ []

far_jumps : (before now : ℕ) → now ≡ before + 100 → IsJump 17000 before (sounding steady now)
unfolding valid_measurements measure_distance_once_in_centimeters
    find_most_reliable_value_from_multiple_measurements physically_possible
    is_distance_measurement_physically_possible most_reliable without_outliers median sort insert
far_jumps before now e = record {
  distance = 51000;
  enough = omega arith;
  found = refl;
  fast = ground (arith, e);
}

locks_out_example :
    let (t, rs) = run far settled in
    After 3 settled t
    × All (λ r. r.distance_cm ≡ none) rs
    × (10 ≤ 3 → t.is_sensor_working_properly ≡ false)
unfolding from_end
locks_out_example =
    locks_out far settled 17000 refl (λ h. elim h [ ])
      (far_jumps 1000 1100 refl, (far_jumps 1100 1200 refl, (far_jumps 1200 1300 refl, tt)))
