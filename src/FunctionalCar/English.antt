-- ===== src/FunctionalCar/English.antt =====
-- functional_line_car_english.py, where its text differs from functional_line_car_v2.py, apart from
-- names and what is printed: it drives each turn at the normal intensity. The functions that the two
-- files have word for word in common are those of the modules beside this one.
use adeept_awr.Common.{Option, none, some, Float, if◌then◌else◌, ℤ, is_zero, is_negative}
use adeept_awr.FunctionalCar.State.{Car, Input, read_line_sensor_data, measure_ultrasonic_distance}
use adeept_awr.FunctionalCar.Turns.{drive_forward, execute_left_turn, execute_right_turn}
use adeept_awr.FunctionalCar.Following.{handle_line_lost_situation}
use adeept_awr.FunctionalCar.Cycle.{
  AvoidanceStatus, safe_status, execute_obstacle_avoidance_control_logic,
}

module _ {ℓ} {W : Type ℓ} where
  unfoldable pub execute_line_following_drive : ℤ → Car W → Car W
  execute_line_following_drive position s =
      if is_zero position
      then drive_forward none s
      else if is_negative position
      then execute_right_turn s
      else execute_left_turn s

  unfoldable pub execute_line_following_control_logic : Option ℤ → Car W → Car W
  unfolding execute_line_following_drive
  execute_line_following_control_logic none s = handle_line_lost_situation s
  execute_line_following_control_logic (some position) s =
      execute_line_following_drive position
        (record s { line_lost_counter = 0; last_line_position = position })

  abbrev pub drive_after : AvoidanceStatus → Input W → Car W → Car W
  drive_after safe_status i s = execute_line_following_control_logic (read_line_sensor_data i s) s
  drive_after _ i s = s

module _ {ℓ} {W : Type ℓ} ⦃f : Float W⦄ where
  unfoldable pub execute_integrated_driving_control : Input W → Car W → Car W
  execute_integrated_driving_control i s =
      let (s', status) =
        execute_obstacle_avoidance_control_logic (measure_ultrasonic_distance i s) i.now s in
      drive_after status i s'
