-- ===== src/HighSchool/Easy/Rotary.antt =====
-- The globals of ultra_simple_car_v2_easy.py and its `check_rotary`.
use adeept_awr.Common.{
  ℕ, ◌+◌, Bool, true, false, not, ◌&&◌, Option, none, Float, of_ℕ, if◌then◌else◌, leb,
}
use adeept_awr.Hardware.{Gear}
use adeept_awr.HighSchool.Samples.{Line, center, same_line}

pub record EasyCar {ℓ} (W : Type ℓ) : Type ℓ where
  pub line_sensor : Bool
  pub motor : Option Gear
  pub ultrasonic : Bool
  pub line_change_count : ℕ
  pub last_line_position : Line
  pub rotary_mode : Bool
  pub rotary_start_time : W

abbrev pub rotary_line_change_threshold : ℕ
rotary_line_change_threshold = 5

module _ {ℓ} {W : Type ℓ} where
  abbrev pub count_change : Line → EasyCar W → EasyCar W
  count_change x s =
      if same_line x s.last_line_position
      then s
      else record s { line_change_count = s.line_change_count + 1; last_line_position = x }

module _ {ℓ} {W : Type ℓ} ⦃f : Float W⦄ where
  unfoldable pub initial_easy_car : EasyCar W
  initial_easy_car = record {
    line_sensor = false;
    motor = none;
    ultrasonic = false;
    line_change_count = 0;
    last_line_position = center;
    rotary_mode = false;
    rotary_start_time = of_ℕ 0;
  }

  -- More than ROTARY_DETECTION_TIME, 2 seconds, has passed.
  abbrev pub is_over : W → W → Bool
  is_over start now = f.lt (of_ℕ 2) (f.sub now start)

  abbrev pub decide : W → EasyCar W → EasyCar W × Bool
  decide now s =
      if leb rotary_line_change_threshold s.line_change_count && not s.rotary_mode
      then (record s { rotary_mode = true; rotary_start_time = now; line_change_count = 0 }, true)
      else if s.rotary_mode && is_over s.rotary_start_time now
      then (record s { rotary_mode = false }, false)
      else (s, s.rotary_mode)

  unfoldable pub check_rotary : Line → W → EasyCar W → EasyCar W × Bool
  check_rotary x now s = decide now (count_change x s)
