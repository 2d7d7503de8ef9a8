-- ===== src/Obstacle/Danger.antt =====
-- The danger level of a distance, the action that is recommended for it, and the LED.
use adeept_awr.Common.{ℕ, Bool, true, false, Option, none, some, Float, of_ℕ, if◌then◌else◌}
use adeept_awr.Vocabulary.{
  DangerLevel, safe, caution, dangerous, very_dangerous, unknown, Action, stop_all_motors,
  turn_right_to_avoid_obstacle, move_straight_forward_slowly, move_straight_forward,
}

module _ {ℓ} {W : Type ℓ} ⦃f : Float W⦄ where
  unfoldable pub analyze_danger_level_from_distance : Option W → DangerLevel
  analyze_danger_level_from_distance none = unknown
  analyze_danger_level_from_distance (some d) =
      if f.le d (of_ℕ 10)
      then very_dangerous
      else if f.le d (of_ℕ 20)
      then dangerous
      else if f.le d (of_ℕ 40)
      then caution
      else safe

pub data Priority : Type 0 where
  emergency_priority high_priority normal_priority low_priority : Priority

-- The returned dictionary but the text of its reason.
pub record Recommendation : Type 0 where
  pub action : Action
  pub speed : ℕ
  pub priority : Priority

abbrev pub recommendation : DangerLevel → Recommendation
recommendation very_dangerous = record {
  action = stop_all_motors;
  speed = 0;
  priority = emergency_priority;
}
recommendation dangerous = record {
  action = turn_right_to_avoid_obstacle;
  speed = 60;
  priority = high_priority;
}
recommendation caution = record {
  action = move_straight_forward_slowly;
  speed = 50;
  priority = normal_priority;
}
recommendation safe = record { action = move_straight_forward; speed = 80; priority = low_priority }
recommendation unknown = record { action = stop_all_motors; speed = 0; priority = high_priority }

abbrev pub led_color : DangerLevel → ℕ × ℕ × ℕ
led_color very_dangerous = (255, 0, 0)
led_color dangerous = (255, 100, 0)
led_color caution = (255, 255, 0)
led_color safe = (0, 255, 0)
led_color unknown = (100, 100, 100)

abbrev pub blinks : DangerLevel → Bool
blinks very_dangerous = true
blinks dangerous = true
blinks _ = false

module _ {ℓ} {W : Type ℓ} ⦃f : Float W⦄ where
  unfoldable pub get_recommended_action_for_obstacle_avoidance : Option W → Recommendation
  get_recommended_action_for_obstacle_avoidance d =
      recommendation (analyze_danger_level_from_distance d)

  unfoldable pub get_warning_led_color_based_on_distance : Option W → ℕ × ℕ × ℕ
  get_warning_led_color_based_on_distance d = led_color (analyze_danger_level_from_distance d)

  unfoldable pub should_led_blink_based_on_danger : Option W → Bool
  should_led_blink_based_on_danger d = blinks (analyze_danger_level_from_distance d)
