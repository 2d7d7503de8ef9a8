-- ===== src/Avoidance/Analysis.antt =====
-- The history of detections and what is read from it: `add_obstacle_detection_to_history`,
-- `analyze_obstacle_persistence_and_direction` and the choice of a strategy,
-- `select_best_avoidance_strategy_based_on_situation`.
use adeept_awr.Vocabulary.{
  DangerLevel, safe, caution, dangerous, very_dangerous, unknown, Position, lost, multiple,
}
use adeept_awr.Common.{
  ℕ, Bool, true, false, not, ◌&&◌, ◌||◌, Option, none, some, List, Float, of_ℕ, if◌then◌else◌, ltb,
  leb, length, count, last_n, from_end, push,
}
use adeept_awr.Avoidance.State.{
  AvoidanceStrategy, simple_right_turn, smart_side_selection, wall_following, reverse_and_retry,
  emergency_stop, DetectionRecord, AvoidanceState, obstacle_history_size,
}

-- `danger_level in ['dangerous', 'very_dangerous']`
abbrev pub is_dangerous : DangerLevel → Bool
is_dangerous dangerous = true
is_dangerous very_dangerous = true
is_dangerous _ = false

abbrev pub is_very_dangerous : DangerLevel → Bool
is_very_dangerous very_dangerous = true
is_very_dangerous _ = false

-- `line_position in ['multiple', 'lost']`
abbrev pub is_complex : Position → Bool
is_complex multiple = true
is_complex lost = true
is_complex _ = false

-- `danger_levels.index(level)`; `none` is the `ValueError`
abbrev pub danger_index : DangerLevel → Option ℕ
danger_index safe = some 0
danger_index caution = some 1
danger_index dangerous = some 2
danger_index very_dangerous = some 3
danger_index unknown = none

pub data DangerTrend : Type 0 where
  getting_worse getting_better stable unknown_trend : DangerTrend

abbrev pub is_getting_worse : DangerTrend → Bool
is_getting_worse getting_worse = true
is_getting_worse _ = false

unfoldable pub compare_indices : Option ℕ → Option ℕ → DangerTrend
compare_indices (some latest) (some previous) =
    if ltb previous latest
    then getting_worse
    else if ltb latest previous
    then getting_better
    else stable
compare_indices _ _ = unknown_trend

-- `none` stands for a list of fewer than two records.
unfoldable pub trend_of : Option DangerLevel → Option DangerLevel → DangerTrend
unfolding compare_indices
trend_of (some latest) (some previous) =
    compare_indices (danger_index latest) (danger_index previous)
trend_of _ _ = unknown_trend

pub record Analysis : Type 0 where
  pub is_persistent : Bool
  pub danger_trend : DangerTrend
  -- absent below three records
  pub dangerous_detection_count : Option ℕ
  pub recommended_strategy : AvoidanceStrategy

unfoldable pub recommend : Bool → DangerTrend → AvoidanceStrategy
recommend persistent trend =
    if persistent && is_getting_worse trend
    then reverse_and_retry
    else if persistent
    then smart_side_selection
    else simple_right_turn

module _ {ℓ} {W : Type ℓ} where
  abbrev pub level_at : List (DetectionRecord W) → ℕ → Option DangerLevel
  level_at records i = elim (from_end records i) [ none ↦ none | some r ↦ some r.danger_level ]

  abbrev pub dangerous_count : List (DetectionRecord W) → ℕ
  dangerous_count = count (λ r. is_dangerous r.danger_level)

  unfoldable pub analyze_recent : List (DetectionRecord W) → Analysis
  unfolding recommend
  analyze_recent recent_records =
      let n = dangerous_count recent_records in
      let persistent = leb 3 n in
      let trend = trend_of (level_at recent_records 0) (level_at recent_records 1) in
      record {
        is_persistent = persistent;
        danger_trend = trend;
        dangerous_detection_count = some n;
        recommended_strategy = recommend persistent trend;
      }

  unfoldable pub analyze_obstacle_persistence_and_direction : List (DetectionRecord W) → Analysis
  unfolding analyze_recent
  analyze_obstacle_persistence_and_direction history =
      if ltb (length history) 3
      then record {
        is_persistent = false;
        danger_trend = unknown_trend;
        dangerous_detection_count = none;
        recommended_strategy = simple_right_turn;
      }
      else analyze_recent (last_n 5 history)

  unfoldable pub add_obstacle_detection_to_history :
      Option W → DangerLevel → W → AvoidanceState W → AvoidanceState W
  add_obstacle_detection_to_history distance_cm level now s = record s {
    detection_history =
        push obstacle_history_size s.detection_history
          (record { distance = distance_cm; danger_level = level; timestamp = now });
  }

module _ {ℓ} {W : Type ℓ} ⦃f : Float W⦄ where
  -- `distance_cm and distance_cm < 8`: a distance of 0.0 is false
  abbrev pub is_emergency_distance : Option W → Bool
  is_emergency_distance none = false
  is_emergency_distance (some d) = not (f.eq d (of_ℕ 0)) && f.lt d (of_ℕ 8)

  unfoldable pub choose : Option W → DangerLevel → Position → Analysis → AvoidanceStrategy
  choose distance_cm level line_position analysis =
      if is_very_dangerous level || is_emergency_distance distance_cm
      then emergency_stop
      else if analysis.is_persistent && is_getting_worse analysis.danger_trend
      then reverse_and_retry
      else if is_complex line_position && analysis.is_persistent
      then wall_following
      else if analysis.is_persistent
      then smart_side_selection
      else simple_right_turn

  unfoldable pub select_best_avoidance_strategy_based_on_situation :
      Option W → DangerLevel → Position → AvoidanceState W → AvoidanceStrategy
  unfolding choose
  select_best_avoidance_strategy_based_on_situation distance_cm level line_position s =
      choose distance_cm level line_position
        (analyze_obstacle_persistence_and_direction s.detection_history)
