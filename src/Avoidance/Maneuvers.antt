-- ===== src/Avoidance/Maneuvers.antt =====
-- The manoeuvres of the strategies from the first call to the last.
use adeept_awr.Vocabulary.{
  Action, stop_all_motors, spin_right_in_place, spin_left_in_place, move_straight_forward,
  move_straight_backward, continue_normal_driving,
}
use adeept_awr.Common.{
  ℕ, ◌≡◌, refl, false, some, List, [], ◌∷◌, Float, arith, length, All, Result, raise,
  attribute_error,
}
use adeept_awr.Avoidance.State.{
  AvoidanceStrategy, simple_right_turn, smart_side_selection, reverse_and_retry, AvoidancePhase,
  detecting, planning, avoiding, returning, completed, AvoidanceState,
}
use adeept_awr.Avoidance.Command.{
  Input, Report, is_detecting, get_complete_obstacle_avoidance_command, run,
}
use adeept_awr.Avoidance.Table.{Move, plan, chosen, Runs, Says, At, call-plan}
use adeept_awr.Avoidance.DeadEnd.{IsStuck, IsStuck-run}

abbrev pub to_move : AvoidancePhase → ℕ → Action → ℕ → Move
to_move p n a v = record { to = p; step = n; action = a; speed = v }

-- A way through the table of a strategy that passes no `detecting` on the way.
data Route (x : AvoidanceStrategy)
    : AvoidancePhase → ℕ → List Move → AvoidancePhase → ℕ → Type 0 where
  here : {p : AvoidancePhase} {n : ℕ} → Route x p n [] p n
  go :
      {p q : AvoidancePhase} {n l : ℕ} {m : Move} {ms : List Move}
      → plan x p n ≡ some m
      → is_detecting p ≡ false
      → Route x m.to m.step ms q l
      → Route x p n (m ∷ ms) q l

module _ {ℓ} {W : Type ℓ} ⦃f : Float W⦄ where
  -- The replies command the moves, one by one.
  abbrev pub Tell : List Move → List (Result (Report W)) → Type 0
  Tell [] [] = Unit
  Tell (m ∷ ms) (r ∷ rs) = Says m.action m.speed r × Tell ms rs
  Tell _ _ = ⊥

  Runs-At :
      (x : AvoidanceStrategy) (p : AvoidancePhase) (n : ℕ) (i : Input W) (s : AvoidanceState W)
      → is_detecting p ≡ false
      → At x p n s
      → Runs x i s
  unfolding chosen
  Runs-At x p n i s e a = ground arith

  follow :
      {x : AvoidanceStrategy} {p q : AvoidancePhase} {n l : ℕ} {ms : List Move}
      → Route x p n ms q l
      → (is : List (Input W)) (s : AvoidanceState W) → length is ≡ length ms
      → At x p n s
      → Tell ms (run is s).1 × At x q l (run is s).0
  unfolding run
  follow here [] s h a = (tt, a)
  follow here (i ∷ is) s h a = absurd (omega arith)
  follow (go e d r) [] s h a = absurd (omega arith)
  follow {x} (go {p = p} {n = n} {m = m} e d r) (i ∷ is) s h a =
      let (b, said) = call-plan x p n i s m (Runs-At x p n i s d a) a.phase a.step e in
      let (rest, end) =
        follow r is (get_complete_obstacle_avoidance_command i s).0 (omega arith) b in
      ((said, rest), end)

  -- A manoeuvre: its first call, from `detecting`, and those that follow.
  start :
      (x : AvoidanceStrategy) {q : AvoidancePhase} {l : ℕ} {m : Move} {ms : List Move}
      → plan x detecting 0 ≡ some m
      → Route x m.to m.step ms q l
      → (i : Input W) (is : List (Input W)) (s : AvoidanceState W) → s.current_phase ≡ detecting
      → s.step_count ≡ 0
      → Runs x i s
      → length is ≡ length ms
      → Tell (m ∷ ms) (run (i ∷ is) s).1 × At x q l (run (i ∷ is) s).0
  unfolding run
  start x {m = m} e r i is s d z h k =
      let (b, said) = call-plan x detecting 0 i s m h d z e in
      let (rest, end) = follow r is (get_complete_obstacle_avoidance_command i s).0 k b in
      ((said, rest), end)

  -- The simple strategy, once chosen, is done after five more calls, whatever these measure: the
  -- six calls command a stop, a spin to the right, a move ahead, a spin to the left, a move ahead
  -- and normal driving at the stated speeds, and the system is back in `detecting`.
  pub simple_maneuver :
      (i : Input W) (is : List (Input W)) (s : AvoidanceState W)
      → s.current_phase ≡ detecting
      → s.step_count ≡ 0
      → Runs simple_right_turn i s
      → length is ≡ 5
      → Tell
          (to_move planning 0 stop_all_motors 0
            ∷ to_move avoiding 1 spin_right_in_place 60
            ∷ to_move avoiding 2 move_straight_forward 50
            ∷ to_move returning 3 spin_left_in_place 60
            ∷ to_move completed 3 move_straight_forward 70
            ∷ to_move detecting 0 continue_normal_driving 80
            ∷ [])
          (run (i ∷ is) s).1
        × At simple_right_turn detecting 0 (run (i ∷ is) s).0
  simple_maneuver i is s d z h k =
      start simple_right_turn refl
        (go refl refl (go refl refl (go refl refl (go refl refl (go refl refl here))))) i is s d z h
        k

  -- The same for the strategy that backs up: eight calls, with two moves back and two spins.
  pub reverse_maneuver :
      (i : Input W) (is : List (Input W)) (s : AvoidanceState W)
      → s.current_phase ≡ detecting
      → s.step_count ≡ 0
      → Runs reverse_and_retry i s
      → length is ≡ 7
      → Tell
          (to_move planning 0 move_straight_backward 50
            ∷ to_move avoiding 1 spin_right_in_place 60
            ∷ to_move avoiding 2 move_straight_forward 40
            ∷ to_move avoiding 3 move_straight_backward 50
            ∷ to_move avoiding 4 spin_left_in_place 60
            ∷ to_move returning 5 move_straight_forward 40
            ∷ to_move completed 5 move_straight_forward 60
            ∷ to_move detecting 0 continue_normal_driving 80
            ∷ [])
          (run (i ∷ is) s).1
        × At reverse_and_retry detecting 0 (run (i ∷ is) s).0
  reverse_maneuver i is s d z h k =
      start reverse_and_retry refl
        (go refl refl (
          go refl refl
            (go refl refl (go refl refl (go refl refl (go refl refl (go refl refl here)))))))
        i is s d z h k

  -- The strategy that scans both sides, once chosen, has five more calls and then a dead end:
  -- every later call raises an `AttributeError`, and none takes the system out of the last step.
  pub smart_dead_end :
      (i : Input W) (is js : List (Input W)) (s : AvoidanceState W)
      → s.current_phase ≡ detecting
      → s.step_count ≡ 0
      → Runs smart_side_selection i s
      → length is ≡ 5
      → let t = (run (i ∷ is) s).0 in
        IsStuck (run js t).0 × All (λ r. r ≡ raise attribute_error) (run js t).1
  smart_dead_end i is js s d z h k =
      let (said, end) =
        start smart_side_selection refl
          (go refl refl (go refl refl (go refl refl (go refl refl (go refl refl here))))) i is s d z
          h k in
      IsStuck-run js (run (i ∷ is) s).0
        (record { strategy = end.strategy; phase = end.phase; step = end.step })
