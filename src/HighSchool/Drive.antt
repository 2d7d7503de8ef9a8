-- ===== src/HighSchool/Drive.antt =====
-- The driving of simple_car/ultra_simple_car_v3_improved.py.
use adeept_awr.Common.{
  Bool, true, false, Option, none, some, List, [], ◌∷◌, Float, of_ℕ, Answer, gives, raises,
  if◌then◌else◌, ltb, ℤ, pos, neg, is_zero, is_negative, magnitude,
}
use adeept_awr.Hardware.{initial_gear, Levels, get_line_position, stop_gear, set_gear}
use adeept_awr.HighSchool.Samples.{
  Line, left, center, right, no_line, SimpleCar, check_rotary_improved,
}

-- A simulation, or how far the controllers could be made.
pub data Loading : Type 0 where
  simulation all_loaded line_sensor_fails motor_fails ultrasonic_fails : Loading

-- What one round reads; the last two fields are what is drawn at random in a simulation.
pub record Input {ℓ} (W : Type ℓ) : Type ℓ where
  pub now : W
  pub levels : Answer Levels
  pub echo : Answer (Option W)
  pub drawn_line : Line
  pub drawn_distance : W

-- -0.3 and 0.3, for a position in tenths
abbrev pub line_of : Option ℤ → Line
line_of none = no_line
line_of (some p) = if ltb 3 (magnitude p) then (if is_negative p then left else right) else center

abbrev pub line_at : Answer Levels → Answer Line
line_at (gives l) = gives (line_of (get_line_position l))
line_at raises = raises

abbrev pub speed_or_default : Option ℤ → ℤ
speed_or_default none = pos 80
speed_or_default (some v) = if is_zero v then pos 80 else v

module _ {ℓ} {W : Type ℓ} where
  unfoldable pub setup : Loading → SimpleCar W → SimpleCar W × Bool
  setup simulation s = (s, true)
  setup all_loaded s =
      (record s { line_sensor = true; motor = some initial_gear; ultrasonic = true }, true)
  setup line_sensor_fails s = (s, false)
  setup motor_fails s = (record s { line_sensor = true }, false)
  setup ultrasonic_fails s = (record s { line_sensor = true; motor = some initial_gear }, false)

  unfoldable pub read_line : Input W → SimpleCar W → Answer Line
  read_line i s = if s.line_sensor then line_at i.levels else gives i.drawn_line

  abbrev pub set_speeds : ℤ → ℤ → SimpleCar W → SimpleCar W
  set_speeds a b s = record s { motor = set_gear a b s.motor }

  unfoldable pub stop : SimpleCar W → SimpleCar W
  stop s = record s { motor = stop_gear s.motor }

  unfoldable pub go_forward : Option ℤ → SimpleCar W → SimpleCar W
  go_forward speed s = set_speeds (speed_or_default speed) (speed_or_default speed) s

  unfoldable pub turn_left : SimpleCar W → SimpleCar W
  turn_left s = set_speeds (pos 100) (neg (pos 30)) s

  unfoldable pub turn_right : SimpleCar W → SimpleCar W
  turn_right s = set_speeds (neg (pos 30)) (pos 100) s

  -- The three stages follow one another, each for 0.8 seconds.
  unfoldable pub avoid_obstacle : SimpleCar W → SimpleCar W
  unfolding turn_left go_forward turn_right
  avoid_obstacle s = turn_right (go_forward none (turn_left s))

  -- In a rotary: half of the safe speed of 40 beside the centre, and a third of it without a line.
  abbrev pub drive_rotary : Line → SimpleCar W → SimpleCar W
  drive_rotary center s = go_forward (some (pos 40)) s
  drive_rotary left s = go_forward (some (pos 20)) s
  drive_rotary right s = go_forward (some (pos 20)) s
  drive_rotary no_line s = go_forward (some (pos 13)) s

  abbrev pub drive_line : Line → SimpleCar W → SimpleCar W
  drive_line center s = go_forward none s
  drive_line left s = turn_right s
  drive_line right s = turn_left s
  drive_line no_line s = turn_left s

  -- `cleanup` of the motor controller stops the motors once more.
  unfoldable pub cleanup : SimpleCar W → SimpleCar W
  unfolding stop
  cleanup s = let s' = stop s in record s' { motor = stop_gear s'.motor }

module _ {ℓ} {W : Type ℓ} ⦃f : Float W⦄ where
  -- `distance if distance else 999`
  abbrev pub distance_or_far : Option W → W
  distance_or_far none = of_ℕ 999
  distance_or_far (some d) = if f.eq d (of_ℕ 0) then of_ℕ 999 else d

  abbrev pub distance_of : Answer (Option W) → Answer W
  distance_of (gives o) = gives (distance_or_far o)
  distance_of raises = raises

  unfoldable pub read_distance : Input W → SimpleCar W → Answer W
  read_distance i s = if s.ultrasonic then distance_of i.echo else gives i.drawn_distance

  abbrev pub drive_on : W → Answer Line → SimpleCar W → Answer (SimpleCar W)
  drive_on now raises s = raises
  drive_on now (gives line) s =
      let (s', is_rotary) = check_rotary_improved line now s in
      gives (if is_rotary then drive_rotary line s' else drive_line line s')

  abbrev pub drive_at : Answer W → Input W → SimpleCar W → Answer (SimpleCar W)
  drive_at raises i s = raises
  drive_at (gives distance) i s =
      if f.lt distance (of_ℕ 15) then gives (avoid_obstacle s) else drive_on i.now (read_line i s) s

  -- A round that raises has not changed anything before.
  unfoldable pub smart_drive : Input W → SimpleCar W → Answer (SimpleCar W)
  unfolding read_distance read_line
  smart_drive i s = drive_at (read_distance i s) i s

  abbrev pub continue_with : Answer (SimpleCar W) → SimpleCar W → SimpleCar W → SimpleCar W
  continue_with (gives s') s rest = rest
  continue_with raises s rest = s

  abbrev pub car_of : Answer (SimpleCar W) → SimpleCar W → SimpleCar W
  car_of (gives s') s = s'
  car_of raises s = s

  -- The loop of `main`: the rounds until the user interrupts it, or until one raises.
  unfoldable pub drive_rounds : List (Input W) → SimpleCar W → SimpleCar W
  drive_rounds [] s = s
  drive_rounds (i ∷ is) s =
      let r = smart_drive i s in let rest = drive_rounds is (car_of r s) in continue_with r s rest

  abbrev pub run_if : Bool → List (Input W) → SimpleCar W → SimpleCar W
  run_if true is s = cleanup (drive_rounds is s)
  run_if false is s = s

  unfoldable pub main : Loading → List (Input W) → SimpleCar W → SimpleCar W
  unfolding setup drive_rounds
  main o is s = let (s', ready) = setup o s in run_if ready is s'
