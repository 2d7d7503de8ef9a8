-- ===== src/Avoidance/Invariant.antt =====
-- What holds between two calls of the avoidance system.
use adeept_awr.Vocabulary.{continue_normal_driving}
use adeept_awr.Common.{
  length-push-le, true, Bool-cases, ℕ, ◌≤◌, ◌≡◌, refl, ◌⊎◌, inl, inr, Option, none, some, List, [],
  ◌∷◌, Float, arith, length, ok,
}
use adeept_awr.Avoidance.State.{
  AvoidanceStrategy, simple_right_turn, smart_side_selection, wall_following, reverse_and_retry,
  emergency_stop, AvoidancePhase, detecting, planning, avoiding, returning, completed,
  AvoidanceState, initial_state, reset_avoidance_state, obstacle_history_size,
}
use adeept_awr.Avoidance.Analysis.{
  is_dangerous, add_obstacle_detection_to_history,
  select_best_avoidance_strategy_based_on_situation,
}
use adeept_awr.Avoidance.Strategies.{
  command, execute_simple_right_turn_avoidance, execute_smart_side_selection_avoidance,
  execute_wall_following_avoidance, execute_reverse_and_retry_avoidance,
  execute_emergency_stop_avoidance,
}
use adeept_awr.Avoidance.Command.{
  Input, is_detecting, execute_selected_avoidance_strategy, respond,
  get_complete_obstacle_avoidance_command, run,
}

-- The step numbers that each phase of a strategy is in; `⊥` marks a phase never entered.
abbrev pub StepIn : AvoidanceStrategy → AvoidancePhase → ℕ → Type 0
StepIn _ detecting n = n ≡ 0
StepIn simple_right_turn planning n = n ≡ 0
StepIn simple_right_turn avoiding n = (1 ≤ n) × (n ≤ 2)
StepIn simple_right_turn returning n = n ≡ 3
StepIn simple_right_turn completed n = n ≡ 3
StepIn smart_side_selection planning n = n ≤ 3
StepIn smart_side_selection avoiding n = (4 ≤ n) × (n ≤ 5)
StepIn smart_side_selection _ n = ⊥
StepIn wall_following planning n = ⊥
StepIn wall_following avoiding n = n ≤ 15
StepIn wall_following returning n = n ≡ 16
StepIn wall_following completed n = n ≡ 16
StepIn reverse_and_retry planning n = n ≡ 0
StepIn reverse_and_retry avoiding n = (1 ≤ n) × (n ≤ 4)
StepIn reverse_and_retry returning n = n ≡ 5
StepIn reverse_and_retry completed n = n ≡ 5
StepIn emergency_stop completed n = n ≡ 0
StepIn emergency_stop _ n = ⊥

pub record IsValid {ℓ} {W : Type ℓ} (s : AvoidanceState W) : Type 0 where
  pub history_bound : length s.detection_history ≤ obstacle_history_size
  pub step_in : StepIn s.current_strategy s.current_phase s.step_count

is_detecting→eq : (p : AvoidancePhase) → is_detecting p ≡ true → p ≡ detecting
is_detecting→eq p h = ground arith

-- A new strategy may start where the phase is `detecting`.
StepIn-switch :
    (p : AvoidancePhase) (x y : AvoidanceStrategy) (n : ℕ)
    → is_detecting p ≡ true
    → StepIn x p n
    → StepIn y p n
StepIn-switch detecting x y n e h = h
StepIn-switch _ x y n e h = cc

module _ {ℓ} {W : Type ℓ} ⦃f : Float W⦄ where
  -- One strategy, in one phase, keeps the step numbers.
  execute-StepIn_at :
      (x : AvoidanceStrategy) (p : AvoidancePhase) (d : Option W) (now : W) (s : AvoidanceState W)
      → s.current_phase ≡ p
      → StepIn x p s.step_count
      → let t = (execute_selected_avoidance_strategy x d now s).0 in
        StepIn t.current_strategy t.current_phase t.step_count
  unfolding execute_selected_avoidance_strategy execute_simple_right_turn_avoidance
      execute_smart_side_selection_avoidance execute_wall_following_avoidance
      execute_reverse_and_retry_avoidance execute_emergency_stop_avoidance reset_avoidance_state
  execute-StepIn_at simple_right_turn detecting d now s e h = ground arith
  execute-StepIn_at _ _ none now s e h = ground arith
  execute-StepIn_at _ _ (some d) now s e h = ground arith

  execute-StepIn :
      (x : AvoidanceStrategy) (d : Option W) (now : W) (s : AvoidanceState W)
      → StepIn x s.current_phase s.step_count
      → let t = (execute_selected_avoidance_strategy x d now s).0 in
        StepIn t.current_strategy t.current_phase t.step_count
  execute-StepIn x d now s h = execute-StepIn_at x s.current_phase d now s refl h

  execute-history :
      (x : AvoidanceStrategy) (p : AvoidancePhase) (d : Option W) (now : W) (s : AvoidanceState W)
      → s.current_phase ≡ p
      → (execute_selected_avoidance_strategy x d now s).0.detection_history ≡ s.detection_history
  unfolding execute_selected_avoidance_strategy execute_simple_right_turn_avoidance
      execute_smart_side_selection_avoidance execute_wall_following_avoidance
      execute_reverse_and_retry_avoidance execute_emergency_stop_avoidance reset_avoidance_state
  execute-history simple_right_turn detecting d now s e = ground arith
  execute-history _ _ none now s e = ground arith
  execute-history _ _ (some d) now s e = ground arith

  pub respond-history :
      (i : Input W) (s : AvoidanceState W) → (respond i s).0.detection_history ≡ s.detection_history
  unfolding respond
  respond-history i s = ground (
    arith,
    execute-history
        (select_best_avoidance_strategy_based_on_situation i.distance_cm i.danger_level
          i.line_position s)
        s.current_phase i.distance_cm i.clock s refl,
    execute-history s.current_strategy s.current_phase i.distance_cm i.clock s refl,
  )

  -- A call runs a strategy that fits the step number, or leaves the state as it is.
  pub respond-cases :
      (i : Input W) (s : AvoidanceState W)
      → StepIn s.current_strategy s.current_phase s.step_count
      → ((x : AvoidanceStrategy) × StepIn x s.current_phase s.step_count
          × ((is_detecting s.current_phase ≡ true) ⊎ (s.current_strategy ≡ x))
          × (respond i s ≡ execute_selected_avoidance_strategy x i.distance_cm i.clock s))
        ⊎ ((s.current_phase ≡ detecting)
            × (respond i s ≡ (s, ok (some (command continue_normal_driving 80 0 detecting)))))
  unfolding respond
  respond-cases i s h = elim (Bool-cases (is_detecting s.current_phase)) [
    | inl e ↦ elim (Bool-cases (is_dangerous i.danger_level)) [
      | inl g ↦
          let x =
            select_best_avoidance_strategy_based_on_situation i.distance_cm i.danger_level
              i.line_position s in
          inl (
            x,
            StepIn-switch s.current_phase s.current_strategy x s.step_count e h,
            inl e,
            rw (e, g),
          )
      | inr g ↦ inr (is_detecting→eq s.current_phase e, rw (e, g))
    ]
    | inr e ↦ inl (s.current_strategy, h, inr refl, rw e)
  ]

  respond-StepIn :
      (i : Input W) (s : AvoidanceState W)
      → StepIn s.current_strategy s.current_phase s.step_count
      → let t = (respond i s).0 in StepIn t.current_strategy t.current_phase t.step_count
  respond-StepIn i s h = elim (respond-cases i s h) [
    | inl (x, fits, new, e) ↦ rw e (execute-StepIn x i.distance_cm i.clock s fits)
    | inr (e, same) ↦ rw same h
  ]

  -- Every call keeps the invariant, also one that raises: the history holds at most ten
  -- detections, and the step number is one of those of the phase that the strategy is in.
  pub command-IsValid :
      (i : Input W) (s : AvoidanceState W)
      → IsValid s
      → IsValid (get_complete_obstacle_avoidance_command i s).0
  unfolding get_complete_obstacle_avoidance_command add_obstacle_detection_to_history
  command-IsValid i s v =
      let s' = add_obstacle_detection_to_history i.distance_cm i.danger_level i.stamp s in
      record {
        history_bound = rw (respond-history i s') (
            length-push-le obstacle_history_size s.detection_history
              (record {
                distance = i.distance_cm;
                danger_level = i.danger_level;
                timestamp = i.stamp;
              })
              v.history_bound);
        step_in = respond-StepIn i s' v.step_in;
      }

  initial-IsValid : IsValid {W = W} initial_state
  unfolding initial_state
  initial-IsValid = omega arith

  run-IsValid_from : (is : List (Input W)) (s : AvoidanceState W) → IsValid s → IsValid (run is s).0
  unfolding run
  run-IsValid_from [] s v = v
  run-IsValid_from (i ∷ is) s v =
      run-IsValid_from is (get_complete_obstacle_avoidance_command i s).0 (command-IsValid i s v)

  -- Whatever is measured, and whatever has been raised on the way, every state that the system
  -- reaches from its start satisfies the invariant.
  pub run-IsValid : (is : List (Input W)) → IsValid (run is initial_state).0
  run-IsValid is = run-IsValid_from is initial_state initial-IsValid
