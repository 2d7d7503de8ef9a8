-- ===== src/Rotary/State.antt =====
-- The globals of simple_rotary_functions.py, the memory of sensor readings, and the rotary status.
-- The three counters `*_count_in_window`, which nothing reads, are left out.
use adeept_awr.Common.{
  ℕ, ◌+◌, ◌-◌, Bool, true, false, not, ◌&&◌, Option, none, some, List, [], Float, of_ℕ,
  if◌then◌else◌, ltb, leb, ◌==◌, length, count, last_n, push,
}
use adeept_awr.Vocabulary.{Position, left, center, right, lost, multiple}

pub record SensorReading {ℓ} (W : Type ℓ) : Type ℓ where
  pub position : Position
  pub time : W

pub record RotaryMemory {ℓ} (W : Type ℓ) : Type ℓ where
  pub recent_sensor_readings : List (SensorReading W)
  pub is_currently_in_rotary : Bool
  pub rotary_start_time : W
  pub consecutive_same_direction_count : ℕ
  -- `none` is the empty string
  pub last_detected_direction : Option Position

abbrev pub sensor_memory_size : ℕ
sensor_memory_size = 20

pub data RotaryStatus : Type 0 where
  normal entering inside exiting : RotaryStatus

abbrev pub same_position : Position → Position → Bool
same_position left left = true
same_position center center = true
same_position right right = true
same_position lost lost = true
same_position multiple multiple = true
same_position _ _ = false

-- `current_position == last_detected_direction`
abbrev pub is_last : Position → Option Position → Bool
is_last p none = false
is_last p (some q) = same_position p q

-- The position that three sensor values stand for, 1 for a sensor on the line.
unfoldable pub position_of : ℕ → ℕ → ℕ → Position
position_of l c r =
    let detected_sensor_count = l + c + r in
    if detected_sensor_count == 0
    then lost
    else if ltb 1 detected_sensor_count
    then multiple
    else if c == 1
    then center
    else if l == 1
    then left
    else if r == 1
    then right
    else lost

-- The three values that GPIO gives for the pins, or `none` where reading them raises.
unfoldable pub read_three_line_sensors_and_convert_to_position : Option (ℕ × ℕ × ℕ) → Position
unfolding position_of
read_three_line_sensors_and_convert_to_position none = center
read_three_line_sensors_and_convert_to_position (some (l, c, r)) = position_of l c r

module _ {ℓ} {W : Type ℓ} where
  unfoldable pub add_new_sensor_reading_to_memory : Position → W → RotaryMemory W → RotaryMemory W
  add_new_sensor_reading_to_memory p now s = record s {
    recent_sensor_readings =
        push sensor_memory_size s.recent_sensor_readings (record { position = p; time = now });
  }

  abbrev pub appearances : Position → List (SensorReading W) → ℕ
  appearances p = count (λ r. same_position r.position p)

  -- In the last eight readings both sides appear twice, and about as often.
  unfoldable pub check_if_robot_is_entering_rotary_by_analyzing_sensor_pattern :
      List (SensorReading W) → Bool
  check_if_robot_is_entering_rotary_by_analyzing_sensor_pattern readings =
      if ltb (length readings) 8
      then false
      else let recent_positions = last_n 8 readings in
        let left_appearances = appearances left recent_positions in
        let right_appearances = appearances right recent_positions in
        (leb 2 left_appearances && leb 2 right_appearances)
        && (leb (left_appearances - right_appearances) 3
            && leb (right_appearances - left_appearances) 3)

module _ {ℓ} {W : Type ℓ} ⦃f : Float W⦄ where
  unfoldable pub initial_memory : RotaryMemory W
  initial_memory = record {
    recent_sensor_readings = [];
    is_currently_in_rotary = false;
    rotary_start_time = of_ℕ 0;
    consecutive_same_direction_count = 0;
    last_detected_direction = none;
  }

  unfoldable pub reset_all_rotary_memory : RotaryMemory W → RotaryMemory W
  unfolding initial_memory
  reset_all_rotary_memory s = initial_memory

  -- The count of equal positions in a row.
  unfoldable pub note_direction : Position → RotaryMemory W → RotaryMemory W
  note_direction p s =
      if is_last p s.last_detected_direction
      then record s { consecutive_same_direction_count = s.consecutive_same_direction_count + 1 }
      else record s { consecutive_same_direction_count = 1; last_detected_direction = some p }

  -- The branch inside a rotary.
  unfoldable pub update_inside : Position → W → RotaryMemory W → RotaryMemory W × RotaryStatus
  unfolding note_direction
  update_inside p now s =
      let time_in_rotary = f.sub now s.rotary_start_time in
      let t = note_direction p s in
      if same_position p center && leb 5 t.consecutive_same_direction_count
      then (record t { is_currently_in_rotary = false }, exiting)
      else if f.lt (of_ℕ 10) time_in_rotary
      then (record t { is_currently_in_rotary = false }, exiting)
      else if f.lt (of_ℕ 1) time_in_rotary
      then (t, inside)
      else (t, entering)

  unfoldable pub update_rotary_status_based_on_current_situation :
      Position → W → RotaryMemory W → RotaryMemory W × RotaryStatus
  unfolding update_inside
  update_rotary_status_based_on_current_situation p now s =
      if not s.is_currently_in_rotary
        && check_if_robot_is_entering_rotary_by_analyzing_sensor_pattern s.recent_sensor_readings
      then (
        record s {
          is_currently_in_rotary = true;
          rotary_start_time = now;
          consecutive_same_direction_count = 0;
        },
        entering,
      )
      else if s.is_currently_in_rotary
      then update_inside p now s
      else (s, normal)
