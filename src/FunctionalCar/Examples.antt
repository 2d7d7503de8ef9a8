-- ===== src/FunctionalCar/Examples.antt =====
-- Concrete runs of the functional car, in thousandths.
use adeept_awr.Common.{
  ℕ, zero, suc, ◌+◌, ◌*◌, ◌≤◌, ◌≡◌, refl, true, false, some, List, [], ◌∷◌, arith, fixed_float,
  gives, negsuc,
}
use adeept_awr.Hardware.{IsDriven, initial_gear}
use adeept_awr.FunctionalCar.State.{
  Car, Input, center, all_loaded, initial_car, initialize_hardware, measure_ultrasonic_distance,
}
use adeept_awr.FunctionalCar.Following.{execute_line_following_drive, search_again}
use adeept_awr.FunctionalCar.Session.{
  in_body, Program, start_driving, start_avoidance, Event, user, thread, history,
}
use adeept_awr.FunctionalCar.Wheels.{never_reverses}
use adeept_awr.FunctionalCar.Twins.{forget_motors, english_rounds, twins_agree}
use adeept_awr.FunctionalCar.Twins
use adeept_awr.FunctionalCar.Phases.{
  following, turning_left, Represents, rounds, ticks, rounds-Represents,
}
use adeept_awr.FunctionalCar.Progress.{avoidance_ends}
use adeept_awr.FunctionalCar.Steering.{backward_wheels, search_opposes_drive}
use adeept_awr.FunctionalCar.Lost.{LostFor, lose_line, lose_line-LostFor}
use adeept_awr.FunctionalCar.Counts.{obstacles, avoidances, tests, avoidances_follow_obstacles}

abbrev car : Car ℕ
car = record initial_car {
  line_sensor = true;
  motor_controller = some initial_gear;
  ultrasonic_sensor = true;
}

-- An input at a time in thousandths, with an obstacle at a distance, and the line under the left
-- sensor.
abbrev input : ℕ → ℕ → Input ℕ
input now distance = record {
  now = now;
  levels = gives (record { left = true; middle = false; right = false });
  echo = gives (some distance);
  scenario = center;
  random = 0;
  randint_near = 0;
  randint_far = 0;
}

-- An obstacle at 15 cm, then nothing near; a round takes 0.1 seconds.
abbrev approach : ℕ → Input ℕ
approach zero = input 0 15000
approach (suc n) = input (100 * suc n) 90000

abbrev program : Program ℕ
program = record { car = record car { is_running = true }; threads = in_body ∷ [] }

abbrev drive : List (Event ℕ)
drive =
    user 0 start_driving
    ∷ thread 0 (input 0 15000)
    ∷ thread 0 (input 0 15000)
    ∷ user 100 start_avoidance
    ∷ []

never_reverses_example :
    let p : Program ℕ = record {
      car = (initialize_hardware all_loaded initial_car).0;
      threads = [];
    } in
    IsDriven 60 (history drive p).car.motor_controller
never_reverses_example = never_reverses all_loaded drive

car-Represents : Represents true (following, 0) car
unfolding initial_car
car-Represents = record { sensor = refl; active = refl; stage = refl; timer = refl }

rounds-Represents_example :
    Represents true (ticks true 30 approach (following, 0)) (rounds 30 approach car)
rounds-Represents_example = rounds-Represents 30 true approach (following, 0) car car-Represents

avoided : ticks true 30 approach (following, 0) ≡ (following, 2000)
unfolding measure_ultrasonic_distance initial_car
avoided = refl

abbrev avoiding_car : Car ℕ
avoiding_car = record car { obstacle_avoidance_active = true; avoidance_stage = 1 }

avoidance_ends_example :
    (n : ℕ) × ((n ≤ 59) × ((rounds n approach avoiding_car).obstacle_avoidance_active ≡ false))
unfolding initial_car
avoidance_ends_example =
    avoidance_ends true approach avoiding_car 0 avoiding_car-Represents approach-Steady
      (omega arith)
  where
    avoiding_car-Represents : Represents true (turning_left, 0) avoiding_car
    avoiding_car-Represents = record { sensor = refl; active = refl; stage = refl; timer = refl }

    approach-Steady : (n : ℕ) → (approach n).now + 50 ≤ (approach (suc n)).now
    approach-Steady zero = omega arith
    approach-Steady (suc n) = omega arith

search_opposes_drive_example :
    let driven = backward_wheels (execute_line_following_drive (negsuc 9) car).motor_controller in
    let found =
      backward_wheels
        (search_again (record car { last_line_position = negsuc 9 })).motor_controller in
    (driven ≡ (true, false)) × (found ≡ (false, true))
search_opposes_drive_example = search_opposes_drive (negsuc 9) car initial_gear refl refl

lose_line-LostFor_example : LostFor 8 car (lose_line 8 car)
unfolding initial_car
lose_line-LostFor_example = lose_line-LostFor 8 car refl

avoidances_follow_obstacles_example :
    let s = (history drive program).car in
    (obstacles s ≤ avoidances s) × (avoidances s ≤ obstacles s + tests drive)
unfolding initial_car
avoidances_follow_obstacles_example = avoidances_follow_obstacles drive program refl

twins_agree_example :
    forget_motors (english_rounds (approach 0 ∷ approach 1 ∷ []) car)
    ≡ forget_motors (Twins.rounds (approach 0 ∷ approach 1 ∷ []) car)
twins_agree_example = twins_agree (approach 0 ∷ approach 1 ∷ []) car car refl
