-- ===== src/Avoidance/DeadEnd.antt =====
-- The manoeuvres that end in a dead end: the smart strategy and the emergency stop.
use adeept_awr.Vocabulary.{stop_all_motors}
use adeept_awr.Common.{
  ◌≡◌, refl, Option, none, some, List, [], ◌∷◌, Float, arith, All, Result, ok, raise,
  attribute_error, type_error,
}
use adeept_awr.Avoidance.State.{
  smart_side_selection, emergency_stop, avoiding, completed, AvoidanceState,
}
use adeept_awr.Avoidance.Analysis.{add_obstacle_detection_to_history}
use adeept_awr.Avoidance.Strategies.{
  execute_simple_right_turn_avoidance, execute_smart_side_selection_avoidance,
  execute_emergency_stop_avoidance,
}
use adeept_awr.Avoidance.Command.{
  Input, Report, execute_selected_avoidance_strategy, get_complete_obstacle_avoidance_command, run,
}

module _ {ℓ} {W : Type ℓ} ⦃f : Float W⦄ where
  -- The last step of the smart strategy, which has no branch.
  pub record IsStuck (s : AvoidanceState W) : Type 0 where
    pub strategy : s.current_strategy ≡ smart_side_selection
    pub phase : s.current_phase ≡ avoiding
    pub step : s.step_count ≡ 5

  IsStuck-step :
      (i : Input W) (s : AvoidanceState W)
      → IsStuck s
      → let (s', r) = get_complete_obstacle_avoidance_command i s in
        IsStuck s' × (r ≡ raise attribute_error)
  unfolding get_complete_obstacle_avoidance_command add_obstacle_detection_to_history
      execute_selected_avoidance_strategy execute_smart_side_selection_avoidance
      execute_simple_right_turn_avoidance
  IsStuck-step i s h = ground arith

  pub IsStuck-run :
      (is : List (Input W)) (s : AvoidanceState W)
      → IsStuck s
      → IsStuck (run is s).0 × All (λ r. r ≡ raise attribute_error) (run is s).1
  unfolding run
  IsStuck-run [] s h = (h, tt)
  IsStuck-run (i ∷ is) s h =
      let (again, raised) = IsStuck-step i s h in
      let (last, all) = IsStuck-run is (get_complete_obstacle_avoidance_command i s).0 again in
      (last, (raised, all))

  pub record IsStopped (s : AvoidanceState W) : Type 0 where
    pub strategy : s.current_strategy ≡ emergency_stop
    pub phase : s.current_phase ≡ completed

  -- The motors are told to stop, or the call raises for want of a distance.
  abbrev pub StopsOrRaises : Option W → Result (Report W) → Type 0
  StopsOrRaises none (raise type_error) = Unit
  StopsOrRaises (some d) (ok r) = (r.command.action ≡ stop_all_motors) × (r.command.speed ≡ 0)
  StopsOrRaises _ _ = ⊥

  abbrev pub AllStop : List (Input W) → List (Result (Report W)) → Type 0
  AllStop [] [] = Unit
  AllStop (i ∷ is) (r ∷ rs) = StopsOrRaises i.distance_cm r × AllStop is rs
  AllStop _ _ = ⊥

  IsStopped-step :
      (i : Input W) (d : Option W) (s : AvoidanceState W)
      → i.distance_cm ≡ d
      → IsStopped s
      → let (s', r) = get_complete_obstacle_avoidance_command i s in
        IsStopped s' × StopsOrRaises d r
  unfolding get_complete_obstacle_avoidance_command add_obstacle_detection_to_history
      execute_selected_avoidance_strategy execute_emergency_stop_avoidance
  IsStopped-step i none s e h = ground arith
  IsStopped-step i (some d) s e h = ground arith

  -- Once an emergency stop has begun, every later call tells the motors to stop, or raises if the
  -- distance was not measured, and the system stays in the emergency stop.
  pub emergency_absorbs :
      (is : List (Input W)) (s : AvoidanceState W)
      → IsStopped s
      → IsStopped (run is s).0 × AllStop is (run is s).1
  unfolding run
  emergency_absorbs [] s h = (h, tt)
  emergency_absorbs (i ∷ is) s h =
      let (again, stops) = IsStopped-step i i.distance_cm s refl h in
      let (last, all) =
        emergency_absorbs is (get_complete_obstacle_avoidance_command i s).0 again in
      (last, (stops, all))
