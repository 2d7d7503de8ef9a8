-- ===== src/Avoidance/Command.antt =====
-- `execute_selected_avoidance_strategy` and `get_complete_obstacle_avoidance_command` of
-- obstacle_avoidance_strategies.py, and a run over a sequence of calls.
use adeept_awr.Vocabulary.{DangerLevel, Position, continue_normal_driving}
use adeept_awr.Common.{
  ℕ, Bool, true, false, Option, none, some, List, [], ◌∷◌, Float, if◌then◌else◌, length, Result, ok,
  raise, attribute_error,
}
use adeept_awr.Avoidance.State.{
  AvoidanceStrategy, simple_right_turn, smart_side_selection, wall_following, reverse_and_retry,
  emergency_stop, AvoidancePhase, detecting, AvoidanceState,
}
use adeept_awr.Avoidance.Analysis.{
  is_dangerous, add_obstacle_detection_to_history,
  select_best_avoidance_strategy_based_on_situation,
}
use adeept_awr.Avoidance.Strategies.{
  Command, command, execute_simple_right_turn_avoidance, execute_smart_side_selection_avoidance,
  execute_wall_following_avoidance, execute_reverse_and_retry_avoidance,
  execute_emergency_stop_avoidance,
}

-- The arguments of a call, and the clock when the history entry and the start time are stamped.
pub record Input {ℓ} (W : Type ℓ) : Type ℓ where
  pub distance_cm : Option W
  pub danger_level : DangerLevel
  pub line_position : Position
  pub stamp : W
  pub clock : W

-- The returned dictionary after `result.update`.
pub record Report {ℓ} (W : Type ℓ) : Type ℓ where
  pub command : Command
  pub avoidance_strategy : AvoidanceStrategy
  pub avoidance_phase : AvoidancePhase
  pub step_count : ℕ
  pub obstacle_distance : Option W
  pub danger_level : DangerLevel

-- What `get_avoidance_system_status` returns.
pub record Status : Type 0 where
  pub current_strategy : AvoidanceStrategy
  pub current_phase : AvoidancePhase
  pub step_count : ℕ
  pub successful_avoidances : ℕ
  pub failed_avoidances : ℕ
  pub detection_history_count : ℕ
  pub is_avoiding : Bool

abbrev pub is_detecting : AvoidancePhase → Bool
is_detecting detecting = true
is_detecting _ = false

abbrev returned {ℓ} : {S : Type ℓ} → S × Option Command → S × Result (Option Command)
returned (s, c) = (s, ok c)

module _ {ℓ} {W : Type ℓ} ⦃f : Float W⦄ where
  unfoldable pub execute_with :
      AvoidanceStrategy
      → Option W
      → W
      → AvoidanceState W
      → AvoidanceState W × Result (Option Command)
  execute_with simple_right_turn d now s = returned (execute_simple_right_turn_avoidance now s)
  execute_with smart_side_selection d now s =
      returned (execute_smart_side_selection_avoidance now s)
  execute_with wall_following d now s = returned (execute_wall_following_avoidance d s)
  execute_with reverse_and_retry d now s = returned (execute_reverse_and_retry_avoidance s)
  execute_with emergency_stop d now s = execute_emergency_stop_avoidance d s

  unfoldable pub execute_selected_avoidance_strategy :
      AvoidanceStrategy
      → Option W
      → W
      → AvoidanceState W
      → AvoidanceState W × Result (Option Command)
  unfolding execute_with
  execute_selected_avoidance_strategy strategy d now s =
      execute_with strategy d now (record s { current_strategy = strategy })

  -- `result.update(...)`, which raises on `None`.
  unfoldable pub update_result :
      Input W → AvoidanceState W → Result (Option Command) → Result (Report W)
  update_result i s (raise e) = raise e
  update_result i s (ok none) = raise attribute_error
  update_result i s (ok (some c)) = ok (record {
    command = c;
    avoidance_strategy = s.current_strategy;
    avoidance_phase = s.current_phase;
    step_count = s.step_count;
    obstacle_distance = i.distance_cm;
    danger_level = i.danger_level;
  })

  -- The call after the detection has been recorded.
  unfoldable pub respond : Input W → AvoidanceState W → AvoidanceState W × Result (Option Command)
  respond i s =
      if is_detecting s.current_phase
      then if is_dangerous i.danger_level
        then execute_selected_avoidance_strategy
            (select_best_avoidance_strategy_based_on_situation i.distance_cm i.danger_level
              i.line_position s)
            i.distance_cm i.clock s
        else (s, ok (some (command continue_normal_driving 80 0 detecting)))
      else execute_selected_avoidance_strategy s.current_strategy i.distance_cm i.clock s

  unfoldable pub get_complete_obstacle_avoidance_command :
      Input W → AvoidanceState W → AvoidanceState W × Result (Report W)
  unfolding respond update_result
  get_complete_obstacle_avoidance_command i s =
      let (s', r) =
        respond i (add_obstacle_detection_to_history i.distance_cm i.danger_level i.stamp s) in
      (s', update_result i s' r)

  -- Calls one after the other; the globals survive an exception.
  unfoldable pub run :
      List (Input W) → AvoidanceState W → AvoidanceState W × List (Result (Report W))
  run [] s = (s, [])
  run (i ∷ is) s =
      let (s', r) = get_complete_obstacle_avoidance_command i s in
      let (s'', rs) = run is s' in (s'', r ∷ rs)

  unfoldable pub get_avoidance_system_status : AvoidanceState W → Status
  get_avoidance_system_status s = record {
    current_strategy = s.current_strategy;
    current_phase = s.current_phase;
    step_count = s.step_count;
    successful_avoidances = s.successful_avoidances;
    failed_avoidances = s.failed_avoidances;
    detection_history_count = length s.detection_history;
    is_avoiding = if is_detecting s.current_phase then false else true;
  }
