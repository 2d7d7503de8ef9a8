-- ===== src/HighSchool/Examples.antt =====
-- Concrete runs of the simple car, in thousandths.
use adeept_awr.Common.{ℕ, ◌≡◌, refl, true, false, not, some, [], ◌∷◌, gives, fixed_float}
use adeept_awr.Hardware.{initial_gear, levels}
use adeept_awr.HighSchool.Samples.{
  left, center, no_line, SimpleCar, rotary_detected, check_rotary_improved, add_sample, longest_run,
  max_consecutive, non_center_count, changes,
}
use adeept_awr.HighSchool.Drive.{Input}
use adeept_awr.HighSchool.Calm.{is_calm, rotary_detected-calm}
use adeept_awr.HighSchool.Gap.{Ignores, rotary_gap}

abbrev car : SimpleCar ℕ
car = record {
  line_sensor = true;
  motor = some initial_gear;
  ultrasonic = true;
  line_samples = center ∷ left ∷ left ∷ [];
  rotary_mode = false;
  rotary_start_time = 0;
}

abbrev input : Input ℕ
input = record {
  now = 1000;
  levels = gives (levels true false false);
  echo = gives (some 80000);
  drawn_line = center;
  drawn_distance = 0;
}

rotary_detected-calm_example :
    rotary_detected (center ∷ center ∷ no_line ∷ no_line ∷ [])
    ≡ not (is_calm center center no_line no_line)
rotary_detected-calm_example = rotary_detected-calm center center no_line no_line

rotary_gap_example :
    ((check_rotary_improved center 1000 car).0.rotary_mode ≡ true)
    × Ignores left left left 1200 1400 1600 (check_rotary_improved center 1000 car).0
unfolding check_rotary_improved add_sample rotary_detected longest_run max_consecutive
    non_center_count changes
rotary_gap_example = rotary_gap center left left left 1000 1200 1400 1600 car refl refl
