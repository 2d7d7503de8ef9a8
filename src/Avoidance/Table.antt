-- ===== src/Avoidance/Table.antt =====
-- The transition table of the strategies, and the manoeuvres that follow it from start to end.
use adeept_awr.Vocabulary.{
  Action, stop_all_motors, spin_right_in_place, spin_left_in_place, move_straight_forward,
  move_straight_backward, continue_normal_driving,
}
use adeept_awr.Common.{
  ℕ, zero, suc, ◌≡◌, true, Option, none, some, Float, arith, if◌then◌else◌, Result, ok, raise,
}
use adeept_awr.Avoidance.State.{
  AvoidanceStrategy, simple_right_turn, smart_side_selection, wall_following, reverse_and_retry,
  emergency_stop, AvoidancePhase, detecting, planning, avoiding, returning, completed,
  AvoidanceState, reset_avoidance_state,
}
use adeept_awr.Avoidance.Analysis.{
  is_dangerous, add_obstacle_detection_to_history,
  select_best_avoidance_strategy_based_on_situation,
}
use adeept_awr.Avoidance.Strategies.{
  execute_simple_right_turn_avoidance, execute_smart_side_selection_avoidance,
  execute_wall_following_avoidance, execute_reverse_and_retry_avoidance,
  execute_emergency_stop_avoidance,
}
use adeept_awr.Avoidance.Command.{
  Input, Report, is_detecting, execute_selected_avoidance_strategy, update_result, respond,
  get_complete_obstacle_avoidance_command,
}

pub record Move : Type 0 where
  pub to : AvoidancePhase
  pub step : ℕ
  pub action : Action
  pub speed : ℕ

abbrev pub move : AvoidancePhase → ℕ → Action → ℕ → Option Move
move p n a v = some (record { to = p; step = n; action = a; speed = v })

-- The table: what each strategy does in each phase and step. Wall following in the phase
-- `avoiding` depends on the distance and is not in it, nor is the emergency stop.
abbrev pub plan : AvoidanceStrategy → AvoidancePhase → ℕ → Option Move
plan simple_right_turn detecting _ = move planning 0 stop_all_motors 0
plan simple_right_turn planning _ = move avoiding 1 spin_right_in_place 60
plan simple_right_turn avoiding (suc zero) = move avoiding 2 move_straight_forward 50
plan simple_right_turn avoiding (suc (suc zero)) = move returning 3 spin_left_in_place 60
plan simple_right_turn returning n = move completed n move_straight_forward 70
plan smart_side_selection detecting _ = move planning 0 stop_all_motors 0
plan smart_side_selection planning zero = move planning 1 spin_right_in_place 30
plan smart_side_selection planning (suc zero) = move planning 2 spin_left_in_place 30
plan smart_side_selection planning (suc (suc zero)) = move planning 3 spin_left_in_place 30
plan smart_side_selection planning (suc (suc (suc zero))) = move avoiding 4 spin_right_in_place 30
plan smart_side_selection avoiding (suc (suc (suc (suc zero)))) =
    move avoiding 5 move_straight_forward 60
plan wall_following detecting _ = move avoiding 0 spin_right_in_place 50
plan wall_following returning n = move completed n spin_left_in_place 50
plan reverse_and_retry detecting _ = move planning 0 move_straight_backward 50
plan reverse_and_retry planning zero = move avoiding 1 spin_right_in_place 60
plan reverse_and_retry avoiding (suc zero) = move avoiding 2 move_straight_forward 40
plan reverse_and_retry avoiding (suc (suc zero)) = move avoiding 3 move_straight_backward 50
plan reverse_and_retry avoiding (suc (suc (suc zero))) = move avoiding 4 spin_left_in_place 60
plan reverse_and_retry avoiding (suc (suc (suc (suc zero)))) =
    move returning 5 move_straight_forward 40
plan reverse_and_retry returning n = move completed n move_straight_forward 60
plan emergency_stop completed n = none
plan _ completed _ = move detecting 0 continue_normal_driving 80
plan _ _ _ = none

module _ {ℓ} {W : Type ℓ} ⦃f : Float W⦄ where
  -- The strategy that a call runs, given that there is a danger where nothing is under way.
  unfoldable pub chosen : Input W → AvoidanceState W → AvoidanceStrategy
  chosen i s =
      if is_detecting s.current_phase
      then select_best_avoidance_strategy_based_on_situation i.distance_cm i.danger_level
          i.line_position (add_obstacle_detection_to_history i.distance_cm i.danger_level i.stamp s)
      else s.current_strategy

  pub record Runs (x : AvoidanceStrategy) (i : Input W) (s : AvoidanceState W) : Type 0 where
    pub strategy : chosen i s ≡ x
    pub danger : is_detecting s.current_phase ≡ true → is_dangerous i.danger_level ≡ true

  abbrev pub Says : Action → ℕ → Result (Report W) → Type 0
  Says a v (ok r) = (r.command.action ≡ a) × (r.command.speed ≡ v)
  Says a v (raise e) = ⊥

  -- The state after a move.
  pub record At (x : AvoidanceStrategy) (p : AvoidancePhase) (n : ℕ) (s : AvoidanceState W)
      : Type 0 where
    pub strategy : s.current_strategy ≡ x
    pub phase : s.current_phase ≡ p
    pub step : s.step_count ≡ n

  respond-chosen :
      (x : AvoidanceStrategy) (i : Input W) (s : AvoidanceState W)
      → Runs x i s
      → get_complete_obstacle_avoidance_command i s ≡ (
          let s₁ = add_obstacle_detection_to_history i.distance_cm i.danger_level i.stamp s in
          let (s₂, r) = execute_selected_avoidance_strategy x i.distance_cm i.clock s₁ in
          (s₂, update_result i s₂ r))
  unfolding get_complete_obstacle_avoidance_command chosen respond add_obstacle_detection_to_history
  respond-chosen x i s h = ground arith

  execute-plan :
      (x : AvoidanceStrategy) (p : AvoidancePhase) (n : ℕ) (i : Input W) (s : AvoidanceState W)
      (m : Move)
      → s.current_phase ≡ p
      → s.step_count ≡ n
      → plan x p n ≡ some m
      → let (s', r) = execute_selected_avoidance_strategy x i.distance_cm i.clock s in
        At x m.to m.step s' × Says m.action m.speed (update_result i s' r)
  unfolding execute_selected_avoidance_strategy execute_simple_right_turn_avoidance
      execute_smart_side_selection_avoidance execute_wall_following_avoidance
      execute_reverse_and_retry_avoidance execute_emergency_stop_avoidance reset_avoidance_state
      update_result
  execute-plan simple_right_turn avoiding (suc (suc (suc (suc (suc n))))) i s m e k t = cc
  execute-plan _ detecting zero i s m e k t = ground arith
  execute-plan _ _ _ i s m e k t = ground arith

  -- Outside wall following along the wall and the emergency stop, a call makes the move that the
  -- table has for the strategy, the phase and the step number: the action, its speed, and the phase
  -- and step number after it. A call that starts a manoeuvre needs a danger.
  pub call-plan :
      (x : AvoidanceStrategy) (p : AvoidancePhase) (n : ℕ) (i : Input W) (s : AvoidanceState W)
      (m : Move)
      → Runs x i s
      → s.current_phase ≡ p
      → s.step_count ≡ n
      → plan x p n ≡ some m
      → let (s', r) = get_complete_obstacle_avoidance_command i s in
        At x m.to m.step s' × Says m.action m.speed r
  call-plan x p n i s m h e k t = rw (respond-chosen x i s h) (
      execute-plan x p n i
        (add_obstacle_detection_to_history i.distance_cm i.danger_level i.stamp s) m
        (unfold add_obstacle_detection_to_history in e)
        (unfold add_obstacle_detection_to_history in k) t)
