-- ===== src/Rotary/Examples.antt =====
-- Runs of the rotary driving on concrete sensor values.
use adeept_awr.Common.{
  ℕ, ◌≡◌, refl, true, some, List, [], ◌∷◌, map, fixed_float, arith, last_n, push,
}
use adeept_awr.Vocabulary.{left}
use adeept_awr.Rotary.State.{
  initial_memory, RotaryMemory, normal, entering, read_three_line_sensors_and_convert_to_position,
  add_new_sensor_reading_to_memory, check_if_robot_is_entering_rotary_by_analyzing_sensor_pattern,
  update_rotary_status_based_on_current_situation,
}
use adeept_awr.Rotary.Command.{
  Sample, get_smart_driving_command_for_rotary_and_normal_sections, run,
}
use adeept_awr.Rotary.Mirror.{mirror_command, mirror_memory}
use adeept_awr.Rotary.Invariant.{reading_of}
use adeept_awr.Rotary.Symmetry.{NotTwiceBoth, command-mirror}

abbrev sample : ℕ → ℕ → ℕ → Sample ℕ
sample l c r = record { sensors = some (l, c, r); stamp = 5000; clock = 5000 }

abbrev pub on_left : Sample ℕ
on_left = sample 1 0 0

abbrev on_center : Sample ℕ
on_center = sample 0 1 0

abbrev on_right : Sample ℕ
on_right = sample 0 0 1

abbrev pub circling : RotaryMemory ℕ
circling = record {
  recent_sensor_readings = reading_of on_left ∷ reading_of on_right ∷ [];
  is_currently_in_rotary = true;
  rotary_start_time = 4000;
  consecutive_same_direction_count = 1;
  last_detected_direction = some left;
}

-- Four readings on each side, in turn, are the entry of a rotary.
enters :
    map
      (λ c. c.rotary_status)
      (run
        (on_left ∷ on_right ∷ on_left ∷ on_right ∷ on_left ∷ on_right ∷ on_left ∷ on_right ∷ [])
        (initial_memory {W = ℕ})).1
    ≡ normal ∷ normal ∷ normal ∷ normal ∷ normal ∷ normal ∷ normal ∷ entering ∷ []
unfolding run initial_memory get_smart_driving_command_for_rotary_and_normal_sections
    read_three_line_sensors_and_convert_to_position add_new_sensor_reading_to_memory push last_n
    update_rotary_status_based_on_current_situation
    check_if_robot_is_entering_rotary_by_analyzing_sensor_pattern
enters = refl

pub fixed_NotTwiceBoth : NotTwiceBoth fixed_float
fixed_NotTwiceBoth a b p q r = ground arith

command-mirror_example :
    get_smart_driving_command_for_rotary_and_normal_sections on_right (mirror_memory circling) ≡ (
      let (t, c) = get_smart_driving_command_for_rotary_and_normal_sections on_left circling in
      (mirror_memory t, mirror_command c))
command-mirror_example = command-mirror fixed_NotTwiceBoth on_left circling

abbrev five_centers : List (Sample ℕ)
five_centers = on_center ∷ on_center ∷ on_center ∷ on_center ∷ on_center ∷ []

abbrev late : Sample ℕ
late = record on_left { clock = 15000 }
