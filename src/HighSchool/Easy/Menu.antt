-- ===== src/HighSchool/Easy/Menu.antt =====
-- The end of a lesson, and what the car does between two choices of the menu.
use adeept_awr.Common.{
  ◌≡◌, refl, ap, Bool, true, false, Option, none, some, List, [], ◌∷◌, ◌++◌, Float, if◌then◌else◌,
}
use adeept_awr.Hardware.{Gear, stop_gear, motor_stop, initial_gear}
use adeept_awr.HighSchool.Drive.{
  Loading, simulation, all_loaded, line_sensor_fails, motor_fails, ultrasonic_fails,
}
use adeept_awr.HighSchool.Easy.Rotary.{EasyCar}
use adeept_awr.HighSchool.Easy.Drive.{Input, setup, cleanup, stop}
use adeept_awr.HighSchool.Easy.Lessons.{
  Lesson, Choice, run_lesson, only_prints, quits, time_limit, drive_in, is_done, lesson_rounds,
  lesson_if, run_step, choose, main,
}

-- The motors, where there are any, are stopped.
abbrev pub IsStill {ℓ} : {W : Type ℓ} → EasyCar W → Type 0
IsStill s = stop_gear s.motor ≡ s.motor

stop-stop : (m : Option Gear) → stop_gear (stop_gear m) ≡ stop_gear m
unfolding motor_stop
stop-stop none = refl
stop-stop (some g) = refl

module _ {ℓ} {W : Type ℓ} where
  setup-IsStill : (o : Loading) (s : EasyCar W) → IsStill s → IsStill (setup o s).0
  unfolding setup motor_stop initial_gear
  setup-IsStill simulation s h = h
  setup-IsStill all_loaded s h = refl
  setup-IsStill line_sensor_fails s h = h
  setup-IsStill motor_fails s h = h
  setup-IsStill ultrasonic_fails s h = refl

  cleanup-IsStill : (s : EasyCar W) → IsStill (cleanup s)
  unfolding cleanup stop
  cleanup-IsStill s = stop-stop (stop_gear s.motor)

  if-IsStill : (b : Bool) (s t : EasyCar W) → IsStill s → IsStill t → IsStill (if b then s else t)
  if-IsStill true s t h k = h
  if-IsStill false s t h k = k

module _ {ℓ} {W : Type ℓ} ⦃f : Float W⦄ where
  lesson-IsStill :
      (ready : Bool) (l : Lesson) (start : W) (is : List (Input W)) (s : EasyCar W)
      → IsStill s
      → IsStill (lesson_if ready l start is s).0
  lesson-IsStill false l start is s h = h
  lesson-IsStill true l start is s h = cleanup-IsStill (lesson_rounds l start is s).0

  choose-IsStill : (c : Choice W) (s : EasyCar W) → IsStill s → IsStill (choose c s).0
  unfolding choose run_step
  choose-IsStill (run_lesson l o start is) s h =
      lesson-IsStill (setup o s).1 l start is (setup o s).0 (setup-IsStill o s h)
  choose-IsStill only_prints s h = h
  choose-IsStill quits s h = h

  -- From a car that stands still, after any choices of the menu, with whatever hardware could be
  -- made for each of them, and also where a sensor raised in a lesson: the car stands still.
  pub main-IsStill : (cs : List (Choice W)) (s : EasyCar W) → IsStill s → IsStill (main cs s)
  unfolding main
  main-IsStill [] s h = h
  main-IsStill (c ∷ cs) s h =
      let k = choose-IsStill c s h in
      if-IsStill (choose c s).1 _ _ (main-IsStill cs (choose c s).0 k) k

  -- A lesson is over, at the latest, at the first round whose clock has come to its time: what the
  -- sensors would show from then on makes no difference to the car, nor to whether the menu is shown
  -- again.
  pub lesson_ends :
      (l : Lesson) (start : W) (is : List (Input W)) (i : Input W) (more : List (Input W))
      (s : EasyCar W)
      → is_done (time_limit l) start i.clock ≡ true
      → lesson_rounds l start (is ++ (i ∷ more)) s ≡ lesson_rounds l start is s
  unfolding lesson_rounds
  lesson_ends l start [] i more s h = simp h
  lesson_ends l start (j ∷ is) i more s h =
      let (s', goes_on) = drive_in l j s in
      ap
        (λ (r : EasyCar W × Bool).
          if is_done (time_limit l) start j.clock
          then (s, true)
          else if goes_on
          then r
          else (s', false))
        (lesson_ends l start is i more s' h)
