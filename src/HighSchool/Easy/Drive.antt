-- ===== src/HighSchool/Easy/Drive.antt =====
-- One round of each of the lessons of ultra_simple_car_v2_easy.py. The answer of a round is whether it
-- has come to its end, which it does not where a sensor raises.
use adeept_awr.Common.{
  Bool, true, false, Option, some, none, Float, of_ℕ, Answer, gives, raises, if◌then◌else◌, ℤ, pos,
  neg,
}
use adeept_awr.Hardware.{initial_gear, Levels, stop_gear, set_gear}
use adeept_awr.HighSchool.Samples.{Line, left, center, right, no_line}
use adeept_awr.HighSchool.Drive.{
  Loading, simulation, all_loaded, line_sensor_fails, motor_fails, ultrasonic_fails, line_at,
  speed_or_default, distance_of,
}
use adeept_awr.HighSchool.Easy.Rotary.{EasyCar, check_rotary}

-- What one round reads: the clock at the test of the loop and in `check_rotary`, the sensors, of which
-- the line may be read twice, and what a simulation draws.
pub record Input {ℓ} (W : Type ℓ) : Type ℓ where
  pub clock : W
  pub now : W
  pub echo : Answer (Option W)
  pub levels : Answer Levels
  pub next_levels : Answer Levels
  pub drawn_distance : W
  pub drawn_line : Line
  pub next_drawn_line : Line

module _ {ℓ} {W : Type ℓ} where
  -- What was made before a controller failed stays.
  unfoldable pub setup : Loading → EasyCar W → EasyCar W × Bool
  setup simulation s = (s, true)
  setup all_loaded s =
      (record s { line_sensor = true; motor = some initial_gear; ultrasonic = true }, true)
  setup line_sensor_fails s = (s, false)
  setup motor_fails s = (record s { line_sensor = true }, false)
  setup ultrasonic_fails s = (record s { line_sensor = true; motor = some initial_gear }, false)

  unfoldable pub read_line : Answer Levels → Line → EasyCar W → Answer Line
  read_line levels drawn s = if s.line_sensor then line_at levels else gives drawn

  abbrev pub set_speeds : ℤ → ℤ → EasyCar W → EasyCar W
  set_speeds a b s = record s { motor = set_gear a b s.motor }

  unfoldable pub stop : EasyCar W → EasyCar W
  stop s = record s { motor = stop_gear s.motor }

  unfoldable pub go_forward : Option ℤ → EasyCar W → EasyCar W
  go_forward speed s = set_speeds (speed_or_default speed) (speed_or_default speed) s

  unfoldable pub turn_left : EasyCar W → EasyCar W
  turn_left s = set_speeds (pos 100) (neg (pos 30)) s

  unfoldable pub turn_right : EasyCar W → EasyCar W
  turn_right s = set_speeds (neg (pos 30)) (pos 100) s

  unfoldable pub avoid_obstacle : EasyCar W → EasyCar W
  unfolding turn_left go_forward turn_right
  avoid_obstacle s = turn_right (go_forward none (turn_left s))

  abbrev pub drive_line : Answer Line → EasyCar W → EasyCar W × Bool
  drive_line (gives center) s = (go_forward none s, true)
  drive_line (gives left) s = (turn_right s, true)
  drive_line (gives right) s = (turn_left s, true)
  drive_line (gives no_line) s = (turn_left s, true)
  drive_line raises s = (s, false)

  unfoldable pub drive_basic : Answer Levels → Line → EasyCar W → EasyCar W × Bool
  unfolding read_line
  drive_basic levels drawn s = drive_line (read_line levels drawn s) s

  abbrev pub drive_rotary : Line → EasyCar W → EasyCar W
  drive_rotary center s = go_forward (some (pos 40)) s
  drive_rotary left s = go_forward (some (pos 20)) s
  drive_rotary right s = go_forward (some (pos 20)) s
  drive_rotary no_line s = go_forward (some (pos 13)) s

  unfoldable pub cleanup : EasyCar W → EasyCar W
  unfolding stop
  cleanup s = let s' = stop s in record s' { motor = stop_gear s'.motor }

module _ {ℓ} {W : Type ℓ} ⦃f : Float W⦄ where
  unfoldable pub read_distance : Input W → EasyCar W → Answer W
  read_distance i s = if s.ultrasonic then distance_of i.echo else gives i.drawn_distance

  abbrev pub avoid_or : Answer W → EasyCar W × Bool → EasyCar W → EasyCar W × Bool
  avoid_or raises drive s = (s, false)
  avoid_or (gives distance) drive s =
      if f.lt distance (of_ℕ 15) then (avoid_obstacle s, true) else drive

  unfoldable pub drive_with_obstacle : Input W → EasyCar W → EasyCar W × Bool
  unfolding read_distance drive_basic
  drive_with_obstacle i s = avoid_or (read_distance i s) (drive_basic i.levels i.drawn_line s) s

  -- Outside a rotary the line is read once more.
  abbrev pub drive_checked : Answer Line → Input W → EasyCar W → EasyCar W × Bool
  drive_checked raises i s = (s, false)
  drive_checked (gives line) i s =
      let (s', is_rotary) = check_rotary line i.now s in
      if is_rotary
      then (drive_rotary line s', true)
      else drive_basic i.next_levels i.next_drawn_line s'

  unfoldable pub drive_with_rotary : Input W → EasyCar W → EasyCar W × Bool
  unfolding read_distance read_line
  drive_with_rotary i s =
      avoid_or (read_distance i s) (drive_checked (read_line i.levels i.drawn_line s) i s) s
