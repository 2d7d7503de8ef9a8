-- ===== src/Rotary/Invariant.antt =====
-- The memory of readings, the counts over it, and the status against the state.
use mathlib.Core.List.{append-nil, append_assoc}
use adeept_awr.Common.{
  ◌≤◌, ◌≡◌, ap, ◌∙◌, Bool, true, false, List, [], ◌∷◌, ◌++◌, map, Float, arith, last_n, push,
  push-last_n,
}
use adeept_awr.Vocabulary.{Position}
use adeept_awr.Rotary.State.{
  SensorReading, RotaryMemory, sensor_memory_size, RotaryStatus, normal, entering, inside, exiting,
  read_three_line_sensors_and_convert_to_position, add_new_sensor_reading_to_memory,
  update_rotary_status_based_on_current_situation,
}
use adeept_awr.Rotary.Decision.{
  decide_driving_action_for_normal_line_following, decide_driving_action_for_rotary_entry,
  decide_driving_action_for_rotary_inside_using_frequency_method,
  decide_driving_action_for_rotary_exit, choose_by_ratio,
}
use adeept_awr.Rotary.Command.{
  Sample, get_smart_driving_command_for_rotary_and_normal_sections, run,
}

abbrev pub reading_of {ℓ} : {W : Type ℓ} → Sample W → SensorReading W
reading_of i = record {
  position = read_three_line_sensors_and_convert_to_position i.sensors;
  time = i.stamp;
}

-- Whether a status is one of a robot in a rotary.
abbrev pub is_in_rotary : RotaryStatus → Bool
is_in_rotary entering = true
is_in_rotary inside = true
is_in_rotary _ = false

module _ {ℓ} {W : Type ℓ} ⦃f : Float W⦄ where
  update-readings :
      (p : Position) (now : W) (s : RotaryMemory W)
      → (update_rotary_status_based_on_current_situation p now s).0.recent_sensor_readings
        ≡ s.recent_sensor_readings
  unfolding update_rotary_status_based_on_current_situation
  update-readings p now s = ground arith

  command-readings :
      (i : Sample W) (s : RotaryMemory W) (past : List (SensorReading W))
      → s.recent_sensor_readings ≡ last_n sensor_memory_size past
      → (get_smart_driving_command_for_rotary_and_normal_sections i s).0.recent_sensor_readings
        ≡ last_n sensor_memory_size (past ++ (reading_of i ∷ []))
  unfolding get_smart_driving_command_for_rotary_and_normal_sections
      add_new_sensor_reading_to_memory
  command-readings i s past h =
      update-readings (read_three_line_sensors_and_convert_to_position i.sensors) i.clock (
        add_new_sensor_reading_to_memory (read_three_line_sensors_and_convert_to_position i.sensors)
          i.stamp s)
      ∙ ap (λ (l : List (SensorReading W)). push sensor_memory_size l (reading_of i)) h
      ∙ push-last_n sensor_memory_size past (reading_of i)

  -- After any calls the memory holds the last twenty readings of all that were made, the old ones
  -- first.
  pub run-readings :
      (past : List (SensorReading W)) (is : List (Sample W)) (s : RotaryMemory W)
      → s.recent_sensor_readings ≡ last_n sensor_memory_size past
      → (run is s).0.recent_sensor_readings ≡ last_n sensor_memory_size (past ++ map reading_of is)
  unfolding run
  run-readings past [] s h = rw append-nil h
  run-readings past (i ∷ is) s h =
      rw (← append_assoc past (reading_of i ∷ []) (map reading_of is)) (
        run-readings (past ++ (reading_of i ∷ [])) is
          (get_smart_driving_command_for_rotary_and_normal_sections i s).0
          (command-readings i s past h))

  -- The status that a call reports agrees with the state that it leaves: the robot is in a rotary
  -- exactly when the status is `entering` or `inside`; it was in one before if the status is
  -- `inside` or `exiting`, and was not if it is `normal`. The actions are in the range of speeds
  -- from 35 to 100, and inside a rotary at most 70.
  pub command_status :
      (i : Sample W) (s : RotaryMemory W)
      → let (t, c) = get_smart_driving_command_for_rotary_and_normal_sections i s in
        (t.is_currently_in_rotary ≡ is_in_rotary c.rotary_status)
        × (c.rotary_status ≡ normal → s.is_currently_in_rotary ≡ false)
        × (c.rotary_status ≡ inside → s.is_currently_in_rotary ≡ true)
        × (c.rotary_status ≡ exiting → s.is_currently_in_rotary ≡ true)
        × (35 ≤ c.decision.speed)
        × (c.decision.speed ≤ 100)
        × (is_in_rotary c.rotary_status ≡ true → c.decision.speed ≤ 70)
  unfolding get_smart_driving_command_for_rotary_and_normal_sections
      update_rotary_status_based_on_current_situation
      decide_driving_action_for_normal_line_following decide_driving_action_for_rotary_entry
      decide_driving_action_for_rotary_inside_using_frequency_method
      decide_driving_action_for_rotary_exit choose_by_ratio add_new_sensor_reading_to_memory
  command_status i s = ground arith
