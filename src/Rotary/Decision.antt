-- ===== src/Rotary/Decision.antt =====
-- The driving decisions of simple_rotary_functions.py. A decision carries the action and the speed,
-- not the text of its reason.
use adeept_awr.Common.{
  ℕ, ◌+◌, ◌*◌, Bool, false, ◌&&◌, Option, none, some, List, [], ◌∷◌, reverse, Float, of_ℕ,
  if◌then◌else◌, ltb, leb, length, last_n,
}
use adeept_awr.Vocabulary.{
  Position, left, center, right, Action, move_straight_forward, move_straight_forward_slowly,
  move_backward_to_find_line, turn_left_to_follow_line, turn_right_to_follow_line, turn_left_slowly,
  turn_right_slowly,
}
use adeept_awr.Rotary.State.{SensorReading, RotaryMemory, same_position}

pub record Decision : Type 0 where
  pub action : Action
  pub speed : ℕ

abbrev pub decide : Action → ℕ → Decision
decide a v = record { action = a; speed = v }

-- How often each direction was read.
pub record DirectionCounts : Type 0 where
  pub left_count : ℕ
  pub center_count : ℕ
  pub right_count : ℕ

abbrev pub total_count : DirectionCounts → ℕ
total_count n = n.left_count + n.center_count + n.right_count

-- `lost` and `multiple` are not counted.
abbrev pub count_position : Position → DirectionCounts → DirectionCounts
count_position left n = record n { left_count = n.left_count + 1 }
count_position center n = record n { center_count = n.center_count + 1 }
count_position right n = record n { right_count = n.right_count + 1 }
count_position _ n = n

module _ {ℓ} {W : Type ℓ} where
  unfoldable pub count_each_direction_in_recent_readings : List (SensorReading W) → DirectionCounts
  count_each_direction_in_recent_readings [] = record {
    left_count = 0;
    center_count = 0;
    right_count = 0;
  }
  count_each_direction_in_recent_readings (r ∷ rs) =
      count_position r.position (count_each_direction_in_recent_readings rs)

  -- The action for the first clear direction of a list.
  unfoldable pub first_clear : List (SensorReading W) → Action
  first_clear [] = move_straight_forward_slowly
  first_clear (r ∷ rs) = elim r.position [
    | left ↦ turn_right_to_follow_line
    | right ↦ turn_left_to_follow_line
    | center ↦ move_straight_forward
    | _ ↦ first_clear rs
  ]

  unfoldable pub analyze_most_recent_sensor_trend : List (SensorReading W) → Action
  analyze_most_recent_sensor_trend readings =
      if ltb (length readings) 5
      then move_straight_forward_slowly
      else first_clear (reverse (last_n 5 readings))

unfoldable pub decide_driving_action_for_normal_line_following : Position → Decision
decide_driving_action_for_normal_line_following center = decide move_straight_forward 100
decide_driving_action_for_normal_line_following left = decide turn_right_to_follow_line 80
decide_driving_action_for_normal_line_following right = decide turn_left_to_follow_line 80
decide_driving_action_for_normal_line_following _ = decide move_backward_to_find_line 50

unfoldable pub decide_driving_action_for_rotary_exit : Decision
decide_driving_action_for_rotary_exit = decide move_straight_forward 80

-- What is added to the ratio of a direction that was read three times in a row.
abbrev pub is_stable_on : Position → ℕ → Option Position → Bool
is_stable_on p n none = false
is_stable_on p n (some q) = leb 3 n && same_position q p

module _ {ℓ} {W : Type ℓ} ⦃f : Float W⦄ where
  unfoldable pub decide_driving_action_for_rotary_entry : RotaryMemory W → Decision
  decide_driving_action_for_rotary_entry s =
      let n = count_each_direction_in_recent_readings s.recent_sensor_readings in
      if ltb (total_count n) 5
      then decide move_straight_forward_slowly 40
      else if f.le (f.mul (of_ℕ (total_count n)) (f.lit 5 10)) (of_ℕ n.center_count)
      then decide move_straight_forward_slowly 60
      else if ltb (n.right_count * 2) n.left_count
      then decide turn_right_slowly 50
      else if ltb (n.left_count * 2) n.right_count
      then decide turn_left_slowly 50
      else decide move_straight_forward_slowly 45

  abbrev pub ratio_of : ℕ → ℕ → Bool → W
  ratio_of n total bonus =
      let ratio = f.div (of_ℕ n) (of_ℕ total) in if bonus then f.add ratio (f.lit 15 100) else ratio

  -- The choice between the three ratios; `trend` is the action where none is strong.
  unfoldable pub choose_by_ratio : W → W → W → Action → Decision
  choose_by_ratio left_ratio center_ratio right_ratio trend =
      if f.le (f.lit 6 10) center_ratio
      then decide move_straight_forward 70
      else if f.le (f.lit 6 10) left_ratio && f.lt (f.mul right_ratio (of_ℕ 2)) left_ratio
      then decide turn_right_to_follow_line 55
      else if f.le (f.lit 6 10) right_ratio && f.lt (f.mul left_ratio (of_ℕ 2)) right_ratio
      then decide turn_left_to_follow_line 55
      else decide trend 45

  unfoldable pub decide_driving_action_for_rotary_inside_using_frequency_method :
      RotaryMemory W → Decision
  decide_driving_action_for_rotary_inside_using_frequency_method s =
      let n = count_each_direction_in_recent_readings s.recent_sensor_readings in
      let total = total_count n in
      let stable = λ (p : Position).
        is_stable_on p s.consecutive_same_direction_count s.last_detected_direction in
      if ltb total 12
      then decide move_straight_forward_slowly 35
      else choose_by_ratio (ratio_of n.left_count total (stable left))
          (ratio_of n.center_count total (stable center))
          (ratio_of n.right_count total (stable right))
          (analyze_most_recent_sensor_trend s.recent_sensor_readings)
