-- ===== src/AdvancedCar/Examples.antt =====
-- Concrete runs of the advanced car.
use adeept_awr.Common.{ℕ, ◌≡◌, refl, ◌↔◌, true, false, some, pos, negsuc}
use adeept_awr.Hardware.{initial_gear}
use adeept_awr.FunctionalCar
use adeept_awr.FunctionalCar.{execute_line_following_drive, backward_wheels}
use adeept_awr.AdvancedCar.Config.{car_config, motor_errors, validate_config}
use adeept_awr.AdvancedCar.Car.{Car, initial_car, follow_line_advanced}
use adeept_awr.AdvancedCar.Loop.{may_start}
use adeept_awr.AdvancedCar.Valid.{IsValid, may_start-IsValid}
use adeept_awr.AdvancedCar.Limits.{Sets, follow-Sets}
use adeept_awr.AdvancedCar.Sides.{right_is_faster, left_is_faster, cars_disagree}

abbrev car : Car
car = record (initial_car true (some initial_gear)) {
  motor_controller = some initial_gear;
  line_lost_count = 0;
}

car_config_starts : may_start car_config ≡ true
unfolding may_start validate_config motor_errors
car_config_starts = refl

may_start-IsValid_example : (may_start car_config ≡ true) ↔ IsValid car_config
may_start-IsValid_example = may_start-IsValid car_config

follow-Sets_example : Sets car_config initial_gear (follow_line_advanced car_config (negsuc 9) car)
follow-Sets_example = follow-Sets car_config (negsuc 9) car initial_gear refl refl

abbrev functional_car : FunctionalCar.Car ℕ
functional_car = record {
  line_sensor = true;
  motor_controller = some initial_gear;
  ultrasonic_sensor = true;
  is_running = true;
  last_line_position = pos 0;
  line_lost_counter = 0;
  obstacle_avoidance_active = false;
  avoidance_stage = 0;
  avoidance_start_time = 0;
  statistics = record {
    start_time = 0;
    total_driving_time = 0;
    left_turn_count = 0;
    right_turn_count = 0;
    line_lost_count = 0;
    obstacle_detected_count = 0;
    avoidance_action_count = 0;
  };
}

cars_disagree_example :
    let o = (follow_line_advanced car_config (negsuc 9) car).motor_controller in
    backward_wheels (execute_line_following_drive (negsuc 9) functional_car).motor_controller
    ≡ (right_is_faster o, left_is_faster o)
cars_disagree_example =
    cars_disagree (negsuc 9) car functional_car initial_gear initial_gear refl refl refl
