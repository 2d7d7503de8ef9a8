-- ===== src/Obstacle/Status.antt =====
-- `get_complete_obstacle_status_and_recommendation`, where the noise filter is installed.
use adeept_awr.Common.{ℕ, Bool, true, false, Option, Float}
use adeept_awr.Vocabulary.{DangerLevel, safe, caution, dangerous, Action}
use adeept_awr.Ultrasonic.State.{UltrasonicFilter, Confidence}
use adeept_awr.Ultrasonic.Measure.{
  Sounding, DistanceReport, get_ultra_reliable_distance_measurement,
}
use adeept_awr.Obstacle.Danger.{
  Priority, analyze_danger_level_from_distance, get_recommended_action_for_obstacle_avoidance,
  get_warning_led_color_based_on_distance, should_led_blink_based_on_danger,
}

-- The returned dictionary; the count of the history is that of the basic method, which the noise
-- filter replaces.
pub record ObstacleStatus {ℓ} (W : Type ℓ) : Type ℓ where
  pub distance_cm : Option W
  pub danger_level : DangerLevel
  pub recommended_action : Action
  pub recommended_speed : ℕ
  pub priority : Priority
  pub led_color : ℕ × ℕ × ℕ
  pub led_should_blink : Bool
  pub measurement_confidence : Confidence
  pub sensor_health : Bool

-- A sensor that is not healthy makes `safe` a caution and a caution a danger.
unfoldable pub adjust_danger : Bool → DangerLevel → DangerLevel
adjust_danger true level = level
adjust_danger false safe = caution
adjust_danger false caution = dangerous
adjust_danger false level = level

module _ {ℓ} {W : Type ℓ} ⦃f : Float W⦄ where
  unfoldable pub status_of : DistanceReport W → ObstacleStatus W
  unfolding adjust_danger
  status_of r =
      let recommended_action = get_recommended_action_for_obstacle_avoidance r.distance_cm in
      record {
        distance_cm = r.distance_cm;
        danger_level =
            adjust_danger r.is_sensor_healthy (analyze_danger_level_from_distance r.distance_cm);
        recommended_action = recommended_action.action;
        recommended_speed = recommended_action.speed;
        priority = recommended_action.priority;
        led_color = get_warning_led_color_based_on_distance r.distance_cm;
        led_should_blink = should_led_blink_based_on_danger r.distance_cm;
        measurement_confidence = r.confidence;
        sensor_health = r.is_sensor_healthy;
      }

  unfoldable pub get_complete_obstacle_status_and_recommendation :
      Sounding W → UltrasonicFilter W → UltrasonicFilter W × ObstacleStatus W
  unfolding status_of
  get_complete_obstacle_status_and_recommendation m s =
      let (s', r) = get_ultra_reliable_distance_measurement m s in (s', status_of r)
