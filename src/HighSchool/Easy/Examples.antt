-- ===== src/HighSchool/Easy/Examples.antt =====
-- Concrete runs of the car with the timed lessons, in thousandths.
use adeept_awr.Common.{
  ℕ, ◌+◌, ◌≡◌, refl, true, false, some, [], ◌∷◌, leb, gives, arith, fixed_float,
}
use adeept_awr.Hardware.{initial_gear, levels, motor_stop}
use adeept_awr.HighSchool.Samples.{left, center, right, no_line}
use adeept_awr.HighSchool.Drive.{all_loaded}
use adeept_awr.HighSchool.Easy.Rotary.{EasyCar, check_rotary}
use adeept_awr.HighSchool.Easy.Drive.{Input}
use adeept_awr.HighSchool.Easy.Lessons.{run_lesson, only_prints, step3, main}
use adeept_awr.HighSchool.Easy.Counting.{changes, calls, detects_at_five}
use adeept_awr.HighSchool.Easy.Reentry.{is_within, rotary_found_again}
use adeept_awr.HighSchool.Easy.Menu.{IsStill, main-IsStill}

abbrev car : EasyCar ℕ
car = record {
  line_sensor = true;
  motor = some initial_gear;
  ultrasonic = true;
  line_change_count = 3;
  last_line_position = center;
  rotary_mode = false;
  rotary_start_time = 0;
}

abbrev car_in_rotary : EasyCar ℕ
car_in_rotary = record car { rotary_mode = true; line_change_count = 3 }

abbrev input : ℕ → Input ℕ
input t = record {
  clock = t;
  now = t;
  echo = gives (some 80000);
  levels = gives (levels true false false);
  next_levels = gives (levels true false false);
  drawn_distance = 0;
  drawn_line = center;
  next_drawn_line = center;
}

detects_at_five_example :
    (check_rotary right 900000 (calls ((left, 1000) ∷ (left, 2000) ∷ []) car)).1
    ≡ leb 5 (3 + changes {W = ℕ} center ((left, 1000) ∷ (left, 2000) ∷ (right, 900000) ∷ []))
unfolding changes
detects_at_five_example =
    detects_at_five ((left, 1000) ∷ (left, 2000) ∷ []) right 900000 car refl (omega arith)

rotary_found_again_example :
    let (t, answer) =
      check_rotary right 2500 (calls ((left, 1000) ∷ (no_line, 1500) ∷ []) car_in_rotary) in
    (answer ≡ false) × ((check_rotary right 99000 t).1 ≡ true)
unfolding changes is_within
rotary_found_again_example =
    rotary_found_again ((left, 1000) ∷ (no_line, 1500) ∷ []) right right 2500 99000 car_in_rotary
      refl refl (omega arith) refl

main-IsStill_example :
    IsStill (main (run_lesson step3 all_loaded 0 (input 500 ∷ []) ∷ only_prints ∷ []) car)
unfolding initial_gear motor_stop
main-IsStill_example =
    main-IsStill (run_lesson step3 all_loaded 0 (input 500 ∷ []) ∷ only_prints ∷ []) car refl
