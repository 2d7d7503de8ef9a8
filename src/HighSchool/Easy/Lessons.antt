-- ===== src/HighSchool/Easy/Lessons.antt =====
-- The lessons and the menu of ultra_simple_car_v2_easy.py.
use adeept_awr.Common.{
  ℕ, Bool, true, false, Option, none, some, List, [], ◌∷◌, Float, of_ℕ, if◌then◌else◌,
}
use adeept_awr.HighSchool.Drive.{Loading}
use adeept_awr.HighSchool.Easy.Rotary.{EasyCar}
use adeept_awr.HighSchool.Easy.Drive.{
  Input, setup, drive_basic, drive_with_obstacle, drive_with_rotary, cleanup,
}

pub data Lesson : Type 0 where
  step1 step2 step3 all_functions : Lesson

-- `show_settings` and a wrong choice only print.
pub data Choice {ℓ} (W : Type ℓ) : Type ℓ where
  run_lesson : Lesson → Loading → W → List (Input W) → Choice W
  only_prints quits : Choice W

-- STEP1_TIME, STEP2_TIME and STEP3_TIME, in seconds
abbrev pub time_limit : Lesson → Option ℕ
time_limit step1 = some 15
time_limit step2 = some 20
time_limit step3 = some 25
time_limit all_functions = none

module _ {ℓ} {W : Type ℓ} ⦃f : Float W⦄ where
  abbrev pub drive_in : Lesson → Input W → EasyCar W → EasyCar W × Bool
  drive_in step1 i s = drive_basic i.levels i.drawn_line s
  drive_in step2 i s = drive_with_obstacle i s
  drive_in step3 i s = drive_with_rotary i s
  drive_in all_functions i s = drive_with_rotary i s

  -- `current_time >= STEP_TIME`
  abbrev pub is_done : Option ℕ → W → W → Bool
  is_done none start now = false
  is_done (some limit) start now = f.le (of_ℕ limit) (f.sub now start)

  -- The rounds until the time is over, a sensor raises, or the user interrupts it at the end of the
  -- list. The answer is false where it raised, which ends the program.
  unfoldable pub lesson_rounds : Lesson → W → List (Input W) → EasyCar W → EasyCar W × Bool
  unfolding drive_basic drive_with_obstacle drive_with_rotary
  lesson_rounds l start [] s = (s, true)
  lesson_rounds l start (i ∷ is) s =
      let (s', goes_on) = drive_in l i s in
      let rest = lesson_rounds l start is s' in
      if is_done (time_limit l) start i.clock
      then (s, true)
      else if goes_on
      then rest
      else (s', false)

  abbrev pub lesson_if : Bool → Lesson → W → List (Input W) → EasyCar W → EasyCar W × Bool
  lesson_if false l start is s = (s, true)
  lesson_if true l start is s =
      let (s', goes_on) = lesson_rounds l start is s in (cleanup s', goes_on)

  unfoldable pub run_step : Lesson → Loading → W → List (Input W) → EasyCar W → EasyCar W × Bool
  unfolding setup lesson_rounds cleanup
  run_step l o start is s = let (s', ready) = setup o s in lesson_if ready l start is s'

  -- Whether the menu is shown again.
  unfoldable pub choose : Choice W → EasyCar W → EasyCar W × Bool
  unfolding run_step
  choose (run_lesson l o start is) s = run_step l o start is s
  choose only_prints s = (s, true)
  choose quits s = (s, false)

  -- At the end of the list the user interrupts the menu.
  unfoldable pub main : List (Choice W) → EasyCar W → EasyCar W
  unfolding choose
  main [] s = s
  main (c ∷ cs) s =
      let (s', goes_on) = choose c s in let rest = main cs s' in if goes_on then rest else s'
