-- ===== src/Controller/Line.antt =====
-- `LineSensor` of autonomous_robot/sensors/line_sensor.py. A level of a pin is 0 or 1, here a
-- Boolean; confidences are in tenths.
use adeept_awr.Common.{
  ℕ, ◌+◌, ◌*◌, Bool, true, false, Option, none, some, List, [], ◌∷◌, if◌then◌else◌, ltb, leb, ◌==◌,
  length, last_n, push,
}
use adeept_awr.Vocabulary.{Position, left, center, right, lost, multiple}

-- `action` of the commands that the sensors and the controller exchange.
pub data DriveAction : Type 0 where
  forward backward turn_left turn_right pivot_left pivot_right stop : DriveAction

pub record Reading : Type 0 where
  pub on_left : Bool
  pub on_center : Bool
  pub on_right : Bool

pub record LineSensor : Type 0 where
  pub is_initialized : Bool
  pub sensor_history : List Reading

-- The argument is whether the setup of the pins works.
unfoldable pub initialize_gpio : Bool → LineSensor → LineSensor × Bool
initialize_gpio true s = (record s { is_initialized = true }, true)
initialize_gpio false s = (s, false)

unfoldable pub cleanup : LineSensor → LineSensor
cleanup s = record s { is_initialized = false }

abbrev pub one_if : Bool → ℕ
one_if b = if b then 1 else 0

abbrev pub dark : Reading
dark = record { on_left = false; on_center = false; on_right = false }

-- `none` where `GPIO.input` raises.
unfoldable pub read_sensor_raw : Option Reading → LineSensor → Reading
read_sensor_raw none s = dark
read_sensor_raw (some r) s = if s.is_initialized then r else dark

abbrev pub active : (Reading → Bool) → List Reading → ℕ
active sensor [] = 0
active sensor (r ∷ rs) = one_if (sensor r) + active sensor rs

-- The mean over the readings is at least 0.5.
abbrev pub is_half : (Reading → Bool) → List Reading → Bool
is_half sensor rs = leb (length rs) (2 * active sensor rs)

unfoldable pub filter_history : Reading → List Reading → Reading
filter_history current history =
    let recent_values = last_n 2 history in
    if leb 2 (length history)
    then record {
      on_left = is_half (λ r. r.on_left) recent_values;
      on_center = is_half (λ r. r.on_center) recent_values;
      on_right = is_half (λ r. r.on_right) recent_values;
    }
    else current

unfoldable pub read_sensor_filtered : Option Reading → LineSensor → LineSensor × Reading
read_sensor_filtered pins s =
    let current = read_sensor_raw pins s in
    let history = push 3 s.sensor_history current in
    (record s { sensor_history = history }, filter_history current history)

unfoldable pub position_of : Reading → Position
position_of r =
    let n = one_if r.on_left + one_if r.on_center + one_if r.on_right in
    if n == 0
    then lost
    else if ltb 1 n
    then multiple
    else if r.on_center
    then center
    else if r.on_left
    then left
    else if r.on_right
    then right
    else lost

unfoldable pub analyze_line_position : Option Reading → LineSensor → LineSensor × Position
analyze_line_position pins s = let (s', r) = read_sensor_filtered pins s in (s', position_of r)

-- `RotaryState` of rotary_handler.py.
pub data RotaryState : Type 0 where
  normal entering_rotary in_rotary exiting_rotary : RotaryState

-- The text under `line_position`: that of a position, or that of a rotary state, which the command of
-- the rotary sensor has there.
pub data PositionText : Type 0 where
  position_is : Position → PositionText
  state_is : RotaryState → PositionText

pub record LineCommand : Type 0 where
  pub action : DriveAction
  pub speed : ℕ
  pub line_position : PositionText
  pub sensor_values : Reading
  pub confidence_tenths : ℕ

abbrev pub line_command : Position → Reading → DriveAction → ℕ → ℕ → LineCommand
line_command p r a v c = record {
  action = a;
  speed = v;
  line_position = position_is p;
  sensor_values = r;
  confidence_tenths = c;
}

unfoldable pub direction_for : Position → Reading → LineCommand
direction_for center r = line_command center r forward 100 10
direction_for left r = line_command left r pivot_right 100 9
direction_for right r = line_command right r pivot_left 100 9
direction_for lost r = line_command lost r backward 60 5
direction_for multiple r =
    if r.on_center
    then line_command multiple r forward 80 7
    else line_command multiple r forward 60 6

-- The position is that of one reading, and the values are those of the next one.
unfoldable pub direction_with_position :
    Option Reading → Option Reading → LineSensor → LineSensor × Position × LineCommand
direction_with_position first second s =
    let (s₁, p) = analyze_line_position first s in
    let (s₂, r) = read_sensor_filtered second s₁ in (s₂, p, direction_for p r)

unfoldable pub get_driving_direction :
    Option Reading → Option Reading → LineSensor → LineSensor × LineCommand
unfolding direction_for
get_driving_direction first second s =
    let (s', p, c) = direction_with_position first second s in (s', c)

-- `calibrate_sensors`: how many of the samples each sensor is active in, instead of the mean, and the
-- last ten of them. Nothing is answered where the time allows none.
pub record Calibration : Type 0 where
  pub sample_count : ℕ
  pub left_active : ℕ
  pub center_active : ℕ
  pub right_active : ℕ
  pub raw_readings : List Reading

unfoldable pub raw_samples : List (Option Reading) → LineSensor → List Reading
unfolding read_sensor_raw
raw_samples [] s = []
raw_samples (pins ∷ rest) s = read_sensor_raw pins s ∷ raw_samples rest s

abbrev pub calibration_of : List Reading → Option Calibration
calibration_of [] = none
calibration_of (r ∷ rs) =
    let readings : List Reading = r ∷ rs in
    some (record {
      sample_count = length readings;
      left_active = active (λ q. q.on_left) readings;
      center_active = active (λ q. q.on_center) readings;
      right_active = active (λ q. q.on_right) readings;
      raw_readings = last_n 10 readings;
    })

unfoldable pub calibrate_sensors : List (Option Reading) → LineSensor → Option Calibration
unfolding raw_samples
calibrate_sensors pins s = calibration_of (raw_samples pins s)
