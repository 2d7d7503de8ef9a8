-- ===== src/AdvancedCar/Config.antt =====
-- car_config.py: the configuration, of which the parts that nothing reads are left out. The threshold
-- of a sharp turn is in tenths, and the timeout for a lost line in thousandths of a second.
use adeept_awr.Common.{ℕ, Bool, true, false, ◌&&◌, List, [], ◌∷◌, ◌++◌, leb, ℤ, pos, negsuc, ◌≤ℤ◌}

pub record Config : Type 0 where
  pub forward_speed : ℤ
  pub left_turn_right_motor : ℤ
  pub left_turn_left_motor : ℤ
  pub right_turn_left_motor : ℤ
  pub right_turn_right_motor : ℤ
  pub speed_boost : ℤ
  pub opposite_direction : Bool
  pub search_speed : ℤ
  pub control_frequency : ℕ
  pub line_lost_timeout : ℕ
  pub position_threshold : ℕ
  pub max_speed : ℤ
  pub min_speed : ℤ

-- The configuration as it stands in the file.
abbrev pub car_config : Config
car_config = record {
  forward_speed = pos 50;
  left_turn_right_motor = pos 65;
  left_turn_left_motor = pos 25;
  right_turn_left_motor = pos 65;
  right_turn_right_motor = pos 25;
  speed_boost = pos 20;
  opposite_direction = true;
  search_speed = pos 35;
  control_frequency = 20;
  line_lost_timeout = 300;
  position_threshold = 7;
  max_speed = pos 100;
  min_speed = negsuc 99;
}

pub data ConfigError : Type 0 where
  forward_speed_error search_speed_error motor_speed_error : ℤ → ConfigError
  control_frequency_error : ℕ → ConfigError

abbrev pub is_between : ℤ → ℤ → ℤ → Bool
is_between low high v = low ≤ℤ v && v ≤ℤ high

-- The error, unless the test succeeds.
abbrev pub error_unless : Bool → ConfigError → List ConfigError
error_unless true e = []
error_unless false e = e ∷ []

unfoldable pub motor_errors : List ℤ → List ConfigError
motor_errors [] = []
motor_errors (v ∷ vs) =
    error_unless (is_between (negsuc 99) (pos 100) v) (motor_speed_error v) ++ motor_errors vs

unfoldable pub validate_config : Config → List ConfigError
unfolding motor_errors
validate_config c =
    error_unless (is_between (pos 0) (pos 100) c.forward_speed)
      (forward_speed_error c.forward_speed)
    ++ (error_unless (is_between (pos 0) (pos 100) c.search_speed)
          (search_speed_error c.search_speed)
        ++ (motor_errors (
              c.left_turn_right_motor ∷ c.left_turn_left_motor ∷ c.right_turn_left_motor
              ∷ c.right_turn_right_motor ∷ [])
            ++ error_unless (leb 1 c.control_frequency && leb c.control_frequency 100)
                (control_frequency_error c.control_frequency)))
