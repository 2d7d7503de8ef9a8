-- ===== src/LineFilter/Examples.antt =====
-- Runs of the noise filter on concrete samples.
use adeept_awr.Common.{
  ℕ, ◌≤◌, ◌≡◌, refl, Bool, true, false, List, [], ◌∷◌, fixed_float, count, map, ◌==◌, ◌||◌,
  if◌then◌else◌, push, last_n, from_end, Result, ok, raise,
}
use adeept_awr.LineFilter.State.{
  PerSensor, FilterState, initial_filter, fresh_status, reset_line_sensor_filter_system,
}
use adeept_awr.LineFilter.Consistency.{
  check_sensor_reading_consistency, check_change_rates, check_pattern,
  update_sensor_reliability_scores,
}
use adeept_awr.LineFilter.Reading.{
  Measurement, FilteredReading, take_samples, majority_reading,
  take_multiple_sensor_samples_and_filter, record_samples, settle, present, from_reading, back_up,
  get_most_reliable_recent_reading, get_filtered_line_sensor_reading, run,
}
use adeept_awr.LineFilter.Outcomes.{Reply, reading_replies}
use adeept_awr.LineFilter.Invariant.{FilterValid, initial-FilterValid, run-FilterValid}
use adeept_awr.LineFilter.Stall.{is_good, at_most_four_good}

abbrev sensors : Bool → Bool → Bool → PerSensor Bool
sensors l c r = record { left = l; center = c; right = r }

-- The line is under the center; the second and the fourth sample are noisy.
abbrev noisy : ℕ → PerSensor Bool
noisy i = if i == 1 || i == 3 then sensors true false false else sensors false true false

abbrev centered : Measurement ℕ
centered = record { reads = noisy; stamp = 1000; end = 1010; now = 1020 }

abbrev sideways : Measurement ℕ
sideways = record centered { reads = λ i. sensors true false true }

abbrev empty : FilterState ℕ
empty = initial_filter

reading_replies_example :
    let (t, r) = get_filtered_line_sensor_reading centered empty in Reply centered empty t r
reading_replies_example = reading_replies centered empty

run-FilterValid_example : FilterValid (run (centered ∷ sideways ∷ centered ∷ []) empty).0
run-FilterValid_example =
    run-FilterValid (centered ∷ sideways ∷ centered ∷ []) empty initial-FilterValid

abbrev six : List (Measurement ℕ)
six = centered ∷ sideways ∷ centered ∷ sideways ∷ centered ∷ centered ∷ []

at_most_four_good_example : count is_good (run six (reset_line_sensor_filter_system empty)).1 ≤ 4
at_most_four_good_example = at_most_four_good six empty

abbrev seen : Result (FilteredReading ℕ) → ℕ
seen (ok r) = if is_good (ok r) then 1 else 2
seen (raise e) = 3

-- Four accepted measurements, one from the backup, and an exception.
stalls :
    map seen (run (centered ∷ centered ∷ centered ∷ centered ∷ sideways ∷ centered ∷ []) empty).1
    ≡ 1 ∷ 1 ∷ 1 ∷ 1 ∷ 2 ∷ 3 ∷ []
unfolding run initial_filter fresh_status get_filtered_line_sensor_reading
    take_multiple_sensor_samples_and_filter take_samples majority_reading record_samples settle
    check_sensor_reading_consistency check_change_rates check_pattern push last_n from_end
    update_sensor_reliability_scores present from_reading back_up get_most_reliable_recent_reading
stalls = refl
