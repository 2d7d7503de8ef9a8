-- ===== src/Ultrasonic/Filter.antt =====
-- The numerical filters of ultrasonic_noise_filter.py.
use adeept_awr.Common.{
  Bool, true, false, not, ◌||◌, Option, none, some, List, [], ◌∷◌, Float, of_ℕ, if◌then◌else◌, ltb,
  leb, length, from_end, last_n, push, median,
}
use adeept_awr.Ultrasonic.State.{UltrasonicFilter}

module _ {ℓ} {W : Type ℓ} ⦃f : Float W⦄ where
  unfoldable pub is_distance_measurement_physically_possible : W → Bool
  is_distance_measurement_physically_possible d =
      if not (f.eq d d)
      then false
      else if f.is_infinite d
      then false
      else if f.lt d (of_ℕ 2) || f.lt (of_ℕ 300) d
      then false
      else true

  -- How many cm in a second the distance has changed since the last measurement; an interval that
  -- is not positive counts as 0.1 seconds.
  abbrev pub change_rate : W → W → W → W
  change_rate new last interval =
      f.div (f.abs (f.sub new last)) (if f.le interval (of_ℕ 0) then f.lit 1 10 else interval)

  unfoldable pub is_reasonable : W → Option W → W → Bool
  is_reasonable new none interval = true
  is_reasonable new (some last) interval =
      if f.lt (of_ℕ 50) (change_rate new last interval) then false else true

  unfoldable pub check_if_measurement_is_reasonable_change :
      W → W → UltrasonicFilter W → UltrasonicFilter W × Bool
  unfolding is_reasonable
  check_if_measurement_is_reasonable_change new current_time s = (
    record s { last_measurement_time = current_time },
    is_reasonable new (from_end s.reliable_distance_history 0)
        (f.sub current_time s.last_measurement_time),
  )

  -- The values with `true` flags: those at most three deviations from the mean.
  unfoldable pub keep_normal : W → W → List W → List W
  keep_normal mean_value std_dev [] = []
  keep_normal mean_value std_dev (m ∷ ms) =
      let rest = keep_normal mean_value std_dev ms in
      if f.le (f.div (f.abs (f.sub m mean_value)) std_dev) (of_ℕ 3) then m ∷ rest else rest

  -- The values that the flags of `detect_outliers_using_statistical_method` select.
  unfoldable pub without_outliers : List W → List W
  without_outliers ms =
      if ltb (length ms) 3
      then ms
      else let std_dev = f.stdev ms in
        if f.lt std_dev (f.lit 1 10) then ms else keep_normal (f.mean ms) std_dev ms

  unfoldable pub physically_possible : List W → List W
  physically_possible [] = []
  physically_possible (m ∷ ms) =
      let rest = physically_possible ms in
      if is_distance_measurement_physically_possible m then m ∷ rest else rest

  abbrev pub or_else : List W → List W → List W
  or_else [] ms = ms
  or_else (n ∷ ns) ms = n ∷ ns

  unfoldable pub most_reliable : List W → Option W
  most_reliable [] = none
  most_reliable (m ∷ []) = some m
  most_reliable (m ∷ n ∷ ms) = median (or_else (without_outliers (m ∷ n ∷ ms)) (m ∷ n ∷ ms))

  unfoldable pub find_most_reliable_value_from_multiple_measurements : List W → Option W
  unfolding most_reliable
  find_most_reliable_value_from_multiple_measurements measurements =
      most_reliable (physically_possible measurements)

  unfoldable pub apply_moving_average_filter : W → UltrasonicFilter W → UltrasonicFilter W × W
  apply_moving_average_filter new s =
      let history = push 10 s.reliable_distance_history new in
      let recent_values = last_n 5 history in
      (
        record s { reliable_distance_history = history },
        if leb 2 (length recent_values) then f.mean recent_values else new,
      )

  unfoldable pub apply_kalman_like_filter : W → Option W → UltrasonicFilter W → W
  apply_kalman_like_filter new none s = new
  apply_kalman_like_filter new (some previous_estimate) s =
      let sensor_trust = f.div (of_ℕ s.sensor_reliability_score) (of_ℕ 100) in
      f.add (f.mul sensor_trust new) (f.mul (f.sub (of_ℕ 1) sensor_trust) previous_estimate)

  -- `stdev` raises a `StatisticsError` for less than two values only.
  unfoldable pub check_measurement_consistency_over_time : UltrasonicFilter W → Bool
  check_measurement_consistency_over_time s =
      if ltb (length s.reliable_distance_history) 3
      then true
      else let recent_values = last_n 3 s.reliable_distance_history in
        let mean_value = f.mean recent_values in
        let coefficient_of_variation =
          if f.lt (of_ℕ 0) mean_value then f.div (f.stdev recent_values) mean_value else of_ℕ 0 in
        f.le coefficient_of_variation (f.lit 2 10)
