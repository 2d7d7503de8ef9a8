-- ===== src/Avoidance/Success.antt =====
-- The counter `successful_avoidances`.
use adeept_awr.Common.{
  ◌+◌, ◌≡◌, refl, ◌⊎◌, inl, inr, true, false, Option, none, some, Float, of_ℕ, arith,
}
use mathlib.Core.Path.{subst}
use adeept_awr.Avoidance.State.{
  AvoidanceStrategy, simple_right_turn, AvoidancePhase, detecting, completed, AvoidanceState,
  reset_avoidance_state,
}
use adeept_awr.Avoidance.Analysis.{add_obstacle_detection_to_history}
use adeept_awr.Avoidance.Strategies.{
  execute_simple_right_turn_avoidance, execute_smart_side_selection_avoidance,
  execute_wall_following_avoidance, execute_reverse_and_retry_avoidance,
  execute_emergency_stop_avoidance,
}
use adeept_awr.Avoidance.Command.{
  Input, is_detecting, execute_selected_avoidance_strategy, respond,
  get_complete_obstacle_avoidance_command,
}
use adeept_awr.Avoidance.Invariant.{StepIn, IsValid, respond-cases}

module _ {ℓ} {W : Type ℓ} ⦃f : Float W⦄ where
  -- Only the simple strategy sets the start time, and it is cleared when it is done.
  abbrev pub ClockIn : AvoidanceStrategy → AvoidancePhase → W → Type ℓ
  ClockIn _ detecting t = t ≡ of_ℕ 0
  ClockIn simple_right_turn _ t = Unit
  ClockIn _ _ t = t ≡ of_ℕ 0

  abbrev pub IsTimed : AvoidanceState W → Type ℓ
  IsTimed s = ClockIn s.current_strategy s.current_phase s.start_time

  -- What a call does to the counter.
  abbrev pub Counts : AvoidanceState W → AvoidanceState W → Type 0
  Counts s t =
      (t.successful_avoidances ≡ s.successful_avoidances)
      ⊎ ((s.current_strategy ≡ simple_right_turn)
          × (s.current_phase ≡ completed)
          × (t.successful_avoidances ≡ s.successful_avoidances + 1))

  execute-ClockIn :
      (x : AvoidanceStrategy) (p : AvoidancePhase) (d : Option W) (now : W) (s : AvoidanceState W)
      → f.lt (of_ℕ 0) (of_ℕ 0) ≡ false
      → s.current_phase ≡ p
      → (is_detecting p ≡ true) ⊎ (s.current_strategy ≡ x)
      → StepIn x p s.step_count
      → ClockIn x p s.start_time
      → let t = (execute_selected_avoidance_strategy x d now s).0 in
        ClockIn t.current_strategy t.current_phase t.start_time × Counts s t
  unfolding execute_selected_avoidance_strategy execute_simple_right_turn_avoidance
      execute_smart_side_selection_avoidance execute_wall_following_avoidance
      execute_reverse_and_retry_avoidance execute_emergency_stop_avoidance reset_avoidance_state
  execute-ClockIn simple_right_turn detecting none now s z e o h c = ground arith
  execute-ClockIn _ _ none now s z e o h c = ground arith
  execute-ClockIn _ _ (some d) now s z e o h c = ground arith

  ClockIn-switch :
      (p : AvoidancePhase) (x y : AvoidanceStrategy) (t : W)
      → (is_detecting p ≡ true) ⊎ (x ≡ y)
      → ClockIn x p t
      → ClockIn y p t
  ClockIn-switch detecting x y t o c = c
  ClockIn-switch p x y t (inl e) c = cc
  ClockIn-switch p x y t (inr e) c = subst (λ (z : AvoidanceStrategy). ClockIn z p t) e c

  respond-ClockIn :
      (i : Input W) (s : AvoidanceState W)
      → f.lt (of_ℕ 0) (of_ℕ 0) ≡ false
      → StepIn s.current_strategy s.current_phase s.step_count
      → ClockIn s.current_strategy s.current_phase s.start_time
      → let t = (respond i s).0 in
        ClockIn t.current_strategy t.current_phase t.start_time × Counts s t
  respond-ClockIn i s z h c = elim (respond-cases i s h) [
    | inl (x, fits, new, e) ↦ rw e (
        execute-ClockIn x s.current_phase i.distance_cm i.clock s z refl new fits
          (ClockIn-switch s.current_phase s.current_strategy x s.start_time new c))
    | inr (e, same) ↦ rw same (c, inl refl)
  ]

  -- A call moves the counter of successes by at most one, and only where it ends a manoeuvre of the
  -- simple strategy: what the strategies that scan, follow a wall or back up bring to an end is not
  -- counted. That 0 is not below 0 is asked of the numbers.
  pub command-Counts :
      (i : Input W) (s : AvoidanceState W)
      → f.lt (of_ℕ 0) (of_ℕ 0) ≡ false
      → IsValid s
      → IsTimed s
      → let t = (get_complete_obstacle_avoidance_command i s).0 in IsTimed t × Counts s t
  unfolding get_complete_obstacle_avoidance_command add_obstacle_detection_to_history
  command-Counts i s z v c =
      respond-ClockIn i (add_obstacle_detection_to_history i.distance_cm i.danger_level i.stamp s) z
        v.step_in c
