-- ===== src/Rotary/Mirror.antt =====
-- The driving treats the two sides alike: a course that is mirrored is driven mirrored.
use mathlib.Core.List.{map-append, reverse-append}
use adeept_awr.Common.{
  ℕ, zero, suc, ◌-◌, ◌≡◌, refl, sym, ap, ◌∙◌, Option, none, some, List, [], ◌∷◌, ◌++◌, map, reverse,
  arith, length, last_n, push, Bool-cases, inl, inr, drop, ltb,
}
use adeept_awr.Vocabulary.{
  spin_left_in_place, spin_right_in_place, Position, left, right, Action, turn_left_to_follow_line,
  turn_right_to_follow_line, turn_left_slowly, turn_right_slowly,
}
use adeept_awr.Rotary.State.{
  SensorReading, RotaryMemory, appearances, read_three_line_sensors_and_convert_to_position,
  check_if_robot_is_entering_rotary_by_analyzing_sensor_pattern,
}
use adeept_awr.Rotary.Decision.{
  Decision, DirectionCounts, count_each_direction_in_recent_readings,
  analyze_most_recent_sensor_trend, first_clear,
}
use adeept_awr.Rotary.Command.{Sample, DrivingCommand}

-- The mirror image of each part.
abbrev pub mirror : Position → Position
mirror left = right
mirror right = left
mirror p = p

abbrev pub mirror_action : Action → Action
mirror_action turn_left_to_follow_line = turn_right_to_follow_line
mirror_action turn_right_to_follow_line = turn_left_to_follow_line
mirror_action turn_left_slowly = turn_right_slowly
mirror_action turn_right_slowly = turn_left_slowly
mirror_action spin_left_in_place = spin_right_in_place
mirror_action spin_right_in_place = spin_left_in_place
mirror_action a = a

abbrev pub mirror_decision : Decision → Decision
mirror_decision d = record d { action = mirror_action d.action }

abbrev pub mirror_counts : DirectionCounts → DirectionCounts
mirror_counts n = record {
  left_count = n.right_count;
  center_count = n.center_count;
  right_count = n.left_count;
}

abbrev pub mirror_direction : Option Position → Option Position
mirror_direction none = none
mirror_direction (some p) = some (mirror p)

abbrev pub mirror_command : DrivingCommand → DrivingCommand
mirror_command c = record {
  decision = mirror_decision c.decision;
  current_sensor = mirror c.current_sensor;
  rotary_status = c.rotary_status;
  frequency_counts = mirror_counts c.frequency_counts;
  total_readings = c.total_readings;
}

abbrev pub mirror_sensors : Option (ℕ × ℕ × ℕ) → Option (ℕ × ℕ × ℕ)
mirror_sensors none = none
mirror_sensors (some (l, c, r)) = some (r, c, l)

pub read-mirror :
    (v : Option (ℕ × ℕ × ℕ))
    → read_three_line_sensors_and_convert_to_position (mirror_sensors v)
      ≡ mirror (read_three_line_sensors_and_convert_to_position v)
unfolding read_three_line_sensors_and_convert_to_position
read-mirror none = refl
read-mirror (some (l, c, r)) = ground arith

module _ {ℓ} {W : Type ℓ} where
  abbrev pub mirror_reading : SensorReading W → SensorReading W
  mirror_reading r = record r { position = mirror r.position }

  abbrev pub mirror_memory : RotaryMemory W → RotaryMemory W
  mirror_memory s = record s {
    recent_sensor_readings = map mirror_reading s.recent_sensor_readings;
    last_detected_direction = mirror_direction s.last_detected_direction;
  }

  abbrev pub mirror_sample : Sample W → Sample W
  mirror_sample i = record i { sensors = mirror_sensors i.sensors }

  pub length-mirror : (rs : List (SensorReading W)) → length (map mirror_reading rs) ≡ length rs
  length-mirror [] = refl
  length-mirror (r ∷ rs) = ap suc (length-mirror rs)

  drop-mirror :
      (k : ℕ) (rs : List (SensorReading W))
      → drop k (map mirror_reading rs) ≡ map mirror_reading (drop k rs)
  drop-mirror zero rs = refl
  drop-mirror (suc k) [] = refl
  drop-mirror (suc k) (r ∷ rs) = drop-mirror k rs

  pub last_n-mirror :
      (k : ℕ) (rs : List (SensorReading W))
      → last_n k (map mirror_reading rs) ≡ map mirror_reading (last_n k rs)
  unfolding last_n
  last_n-mirror k rs = rw (length-mirror rs) (drop-mirror (length rs - k) rs)

  pub reverse-mirror :
      (rs : List (SensorReading W))
      → reverse (map mirror_reading rs) ≡ map mirror_reading (reverse rs)
  reverse-mirror [] = refl
  reverse-mirror (r ∷ rs) =
      reverse-append (mirror_reading r ∷ []) (map mirror_reading rs)
      ∙ ap (λ (l : List (SensorReading W)). l ++ (mirror_reading r ∷ [])) (reverse-mirror rs)
      ∙ sym (
          ap (map mirror_reading) (reverse-append (r ∷ []) rs)
          ∙ map-append mirror_reading (reverse rs) (r ∷ []))

  pub push-mirror :
      (n : ℕ) (rs : List (SensorReading W)) (r : SensorReading W)
      → push n (map mirror_reading rs) (mirror_reading r) ≡ map mirror_reading (push n rs r)
  unfolding push
  push-mirror n rs r =
      let e : map mirror_reading rs ++ (mirror_reading r ∷ [])
          ≡ map mirror_reading (rs ++ (r ∷ [])) =
        sym (map-append mirror_reading rs (r ∷ [])) in
      let size = length-mirror (rs ++ (r ∷ [])) in
      elim (Bool-cases (ltb n (length (rs ++ (r ∷ []))))) [
        | inl b ↦ rw (e, size, b) (drop-mirror 1 (rs ++ (r ∷ [])))
        | inr b ↦ rw (e, size, b)
      ]

  pub counts-mirror :
      (rs : List (SensorReading W))
      → count_each_direction_in_recent_readings (map mirror_reading rs)
        ≡ mirror_counts (count_each_direction_in_recent_readings rs)
  unfolding count_each_direction_in_recent_readings
  counts-mirror [] = refl
  counts-mirror (r ∷ rs) = rw (counts-mirror rs) (ground arith)

  appearances-mirror :
      (p : Position) (rs : List (SensorReading W))
      → appearances (mirror p) (map mirror_reading rs) ≡ appearances p rs
  appearances-mirror left [] = refl
  appearances-mirror p [] = refl
  appearances-mirror left (r ∷ rs) = rw (appearances-mirror left rs) (ground arith)
  appearances-mirror p (r ∷ rs) = rw (appearances-mirror p rs) (ground arith)

  first_clear-mirror :
      (rs : List (SensorReading W))
      → first_clear (map mirror_reading rs) ≡ mirror_action (first_clear rs)
  unfolding first_clear
  first_clear-mirror [] = refl
  first_clear-mirror (r ∷ rs) = ground (arith, first_clear-mirror rs)

  pub entering-mirror :
      (rs : List (SensorReading W))
      → check_if_robot_is_entering_rotary_by_analyzing_sensor_pattern (map mirror_reading rs)
        ≡ check_if_robot_is_entering_rotary_by_analyzing_sensor_pattern rs
  unfolding check_if_robot_is_entering_rotary_by_analyzing_sensor_pattern
  entering-mirror rs =
      let window = last_n 8 rs in
      rw
        (
          length-mirror rs,
          last_n-mirror 8 rs,
          appearances-mirror right window,
          appearances-mirror left window,
        )
        (ground arith)

  pub trend-mirror :
      (rs : List (SensorReading W))
      → analyze_most_recent_sensor_trend (map mirror_reading rs)
        ≡ mirror_action (analyze_most_recent_sensor_trend rs)
  unfolding analyze_most_recent_sensor_trend
  trend-mirror rs = elim (Bool-cases (ltb (length rs) 5)) [
    | inl b ↦ rw (length-mirror rs, b)
    | inr b ↦
        rw (length-mirror rs, b, last_n-mirror 5 rs, reverse-mirror (last_n 5 rs))
          (first_clear-mirror (reverse (last_n 5 rs)))
  ]
