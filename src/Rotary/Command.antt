-- ===== src/Rotary/Command.antt =====
-- `get_smart_driving_command_for_rotary_and_normal_sections` of simple_rotary_functions.py, and a
-- run over a sequence of calls.
use adeept_awr.Common.{ℕ, Option, List, [], ◌∷◌, Float, length}
use adeept_awr.Vocabulary.{Position}
use adeept_awr.Rotary.State.{
  RotaryMemory, RotaryStatus, normal, entering, inside, exiting,
  read_three_line_sensors_and_convert_to_position, add_new_sensor_reading_to_memory,
  update_rotary_status_based_on_current_situation,
}
use adeept_awr.Rotary.Decision.{
  Decision, DirectionCounts, count_each_direction_in_recent_readings,
  decide_driving_action_for_normal_line_following, decide_driving_action_for_rotary_entry,
  decide_driving_action_for_rotary_inside_using_frequency_method,
  decide_driving_action_for_rotary_exit,
}

-- The sensor values of a call, and the clock when the reading and the status are stamped.
pub record Sample {ℓ} (W : Type ℓ) : Type ℓ where
  pub sensors : Option (ℕ × ℕ × ℕ)
  pub stamp : W
  pub clock : W

pub record DrivingCommand : Type 0 where
  pub decision : Decision
  pub current_sensor : Position
  pub rotary_status : RotaryStatus
  pub frequency_counts : DirectionCounts
  pub total_readings : ℕ

module _ {ℓ} {W : Type ℓ} ⦃f : Float W⦄ where
  unfoldable pub decide_for : RotaryStatus → Position → RotaryMemory W → Decision
  decide_for normal p s = decide_driving_action_for_normal_line_following p
  decide_for entering p s = decide_driving_action_for_rotary_entry s
  decide_for inside p s = decide_driving_action_for_rotary_inside_using_frequency_method s
  decide_for exiting p s = decide_driving_action_for_rotary_exit

  -- The call once the position has been read.
  unfoldable pub drive_at : Position → W → W → RotaryMemory W → RotaryMemory W × DrivingCommand
  unfolding decide_for
  drive_at p stamp clock s =
      let s₁ = add_new_sensor_reading_to_memory p stamp s in
      let (s₂, status) = update_rotary_status_based_on_current_situation p clock s₁ in
      (
        s₂,
        record {
          decision = decide_for status p s₂;
          current_sensor = p;
          rotary_status = status;
          frequency_counts = count_each_direction_in_recent_readings s₂.recent_sensor_readings;
          total_readings = length s₂.recent_sensor_readings;
        },
      )

  unfoldable pub get_smart_driving_command_for_rotary_and_normal_sections :
      Sample W → RotaryMemory W → RotaryMemory W × DrivingCommand
  unfolding drive_at
  get_smart_driving_command_for_rotary_and_normal_sections i s =
      drive_at (read_three_line_sensors_and_convert_to_position i.sensors) i.stamp i.clock s

  unfoldable pub run : List (Sample W) → RotaryMemory W → RotaryMemory W × List DrivingCommand
  run [] s = (s, [])
  run (i ∷ is) s =
      let (s', c) = get_smart_driving_command_for_rotary_and_normal_sections i s in
      let (s'', cs) = run is s' in (s'', c ∷ cs)
