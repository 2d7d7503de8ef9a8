-- ===== src/Hardware/LineSensor.antt =====
-- `LineSensorController` of hardware/test_line_sensors.py. A position is in tenths of the source's.
use adeept_awr.Common.{
  ℕ, ◌+◌, ◌*◌, Bool, true, false, Option, none, some, if◌then◌else◌, ◌==◌, ltb, ◌||◌,
}
use adeept_awr.Common.{ℤ, pos, negsuc, magnitude, is_negative}

-- The levels of the three pins, true for HIGH.
pub record Levels : Type 0 where
  pub left : Bool
  pub middle : Bool
  pub right : Bool

abbrev bit : Bool → ℕ
bit true = 1
bit false = 0

-- `(left << 2) | (middle << 1) | right`
unfoldable pub pattern_of : Levels → ℕ
pattern_of s = bit s.left * 4 + bit s.middle * 2 + bit s.right

-- `position_map.get(pattern, 0)`
unfoldable pub position_map : ℕ → Option ℤ
position_map p =
    if p == 0 || p == 5
    then none
    else if p == 1
    then some (pos 10)
    else if p == 3
    then some (pos 5)
    else if p == 4
    then some (negsuc 9)
    else if p == 6
    then some (negsuc 4)
    else some (pos 0)

unfoldable pub get_line_position : Levels → Option ℤ
unfolding pattern_of position_map
get_line_position s = position_map (pattern_of s)

-- The tests of -0.25 and 0.25, for a position in tenths: 2.5 lies between 2 and 3.
abbrev pub simple_position : Option ℤ → Option ℤ
simple_position none = none
simple_position (some p) =
    if ltb 2 (magnitude p) then some (if is_negative p then negsuc 0 else pos 1) else some (pos 0)

unfoldable pub get_simple_position : Levels → Option ℤ
unfolding get_line_position
get_simple_position s = simple_position (get_line_position s)
