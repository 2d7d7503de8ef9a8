-- ===== src/Avoidance/Outcomes.antt =====
-- What a call returns or raises, on every branch.
use adeept_awr.Common.{
  ◌≤◌, ◌≡◌, refl, ◌⊎◌, inl, inr, Bool, true, false, Option, none, some, Float, arith, Result, ok,
  raise, attribute_error, key_error, type_error,
}
use adeept_awr.Avoidance.State.{
  AvoidanceStrategy, simple_right_turn, AvoidancePhase, detecting, AvoidanceState,
  reset_avoidance_state,
}
use adeept_awr.Avoidance.Analysis.{add_obstacle_detection_to_history}
use adeept_awr.Avoidance.Strategies.{
  execute_simple_right_turn_avoidance, execute_smart_side_selection_avoidance,
  execute_wall_following_avoidance, execute_reverse_and_retry_avoidance,
  execute_emergency_stop_avoidance,
}
use adeept_awr.Avoidance.Command.{
  Input, Report, is_detecting, execute_selected_avoidance_strategy, update_result, respond,
  get_complete_obstacle_avoidance_command,
}
use adeept_awr.Avoidance.Invariant.{StepIn, IsValid, respond-cases}
use adeept_awr.Avoidance.DeadEnd.{IsStuck, IsStopped}

abbrev is_none {ℓ} : {A : Type ℓ} → Option A → Bool
is_none none = true
is_none (some a) = false

module _ {ℓ} {W : Type ℓ} ⦃f : Float W⦄ where
  -- A report commands a speed of at most 80; an `AttributeError` comes from the dead end, in the
  -- state `s` before the call; a `TypeError` from an emergency stop, in the state `t` after it, with
  -- no distance measured.
  abbrev pub Replies : Input W → AvoidanceState W → AvoidanceState W → Result (Report W) → Type 0
  Replies i s t (ok r) = r.command.speed ≤ 80
  Replies i s t (raise attribute_error) = IsStuck s
  Replies i s t (raise type_error) = IsStopped t × (is_none i.distance_cm ≡ true)
  Replies i s t (raise key_error) = ⊥

  execute-Replies :
      (x : AvoidanceStrategy) (p : AvoidancePhase) (d : Option W) (i : Input W)
      (s : AvoidanceState W)
      → s.current_phase ≡ p
      → i.distance_cm ≡ d
      → (is_detecting p ≡ true) ⊎ (s.current_strategy ≡ x)
      → StepIn x p s.step_count
      → let (t, r) = execute_selected_avoidance_strategy x i.distance_cm i.clock s in
        Replies i s t (update_result i t r)
  unfolding execute_selected_avoidance_strategy execute_simple_right_turn_avoidance
      execute_smart_side_selection_avoidance execute_wall_following_avoidance
      execute_reverse_and_retry_avoidance execute_emergency_stop_avoidance reset_avoidance_state
      update_result
  execute-Replies simple_right_turn detecting none i s e k o h = ground arith
  execute-Replies _ _ none i s e k o h = ground arith
  execute-Replies _ _ (some d) i s e k o h = ground arith

  respond-Replies :
      (i : Input W) (s : AvoidanceState W)
      → StepIn s.current_strategy s.current_phase s.step_count
      → let (t, r) = respond i s in Replies i s t (update_result i t r)
  unfolding update_result
  respond-Replies i s h = elim (respond-cases i s h) [
    | inl (x, fits, new, e) ↦
        rw e (execute-Replies x s.current_phase i.distance_cm i s refl refl new fits)
    | inr (e, same) ↦ rw same (omega arith)
  ]

  -- Recording a detection leaves the place in the manoeuvre.
  before :
      (i : Input W) (s t : AvoidanceState W) (r : Result (Report W))
      → Replies i (add_obstacle_detection_to_history i.distance_cm i.danger_level i.stamp s) t r
      → Replies i s t r
  unfolding add_obstacle_detection_to_history
  before i s t (ok r) h = h
  before i s t (raise attribute_error) h = ground arith
  before i s t (raise key_error) h = h
  before i s t (raise type_error) h = h

  -- From a state that satisfies the invariant, a call returns a report whose speed is at most 80,
  -- or raises in one of two ways: an `AttributeError` in the dead end of the strategy that scans
  -- both sides, or a `TypeError` in an emergency stop when the distance was not measured.
  pub command-Replies :
      (i : Input W) (s : AvoidanceState W)
      → IsValid s
      → let (t, r) = get_complete_obstacle_avoidance_command i s in Replies i s t r
  unfolding get_complete_obstacle_avoidance_command add_obstacle_detection_to_history
  command-Replies i s v =
      let s' = add_obstacle_detection_to_history i.distance_cm i.danger_level i.stamp s in
      let (t, r) = respond i s' in
      before i s t (update_result i t r) (respond-Replies i s' v.step_in)
