-- ===== src/Avoidance/Strategies.antt =====
-- The five strategies, `execute_*_avoidance` of obstacle_avoidance_strategies.py. A command carries
-- the fields of the returned dictionary but the text of its reason; durations are in
-- milliseconds. `none` is the `None` that a strategy returns where no branch matches.
use adeept_awr.Vocabulary.{
  stop_all_motors, spin_right_in_place, spin_left_in_place, move_straight_forward,
  move_straight_backward, turn_left_to_follow_line, turn_right_to_follow_line,
  continue_normal_driving, Action,
}
use adeept_awr.Common.{
  ℕ, ◌+◌, Option, none, some, Float, of_ℕ, if◌then◌else◌, ltb, ◌==◌, Result, ok, raise, type_error,
}
use adeept_awr.Avoidance.State.{
  AvoidancePhase, detecting, planning, avoiding, returning, completed, AvoidanceState,
  reset_avoidance_state,
}

pub data NextPhase : Type 0 where
  to_phase : AvoidancePhase → NextPhase
  to_emergency : NextPhase

pub data Side : Type 0 where
  left_side right_side : Side

pub record Command : Type 0 where
  pub action : Action
  pub speed : ℕ
  pub duration_ms : ℕ
  pub next_phase : NextPhase
  pub scan_direction : Option Side

abbrev pub command : Action → ℕ → ℕ → AvoidancePhase → Command
command a v ms p = record {
  action = a;
  speed = v;
  duration_ms = ms;
  next_phase = to_phase p;
  scan_direction = none;
}

abbrev scanning : Side → Command
scanning right_side = record (command spin_right_in_place 30 500 planning) {
  scan_direction = some right_side;
}
scanning left_side = record (command spin_left_in_place 30 500 planning) {
  scan_direction = some left_side;
}

module _ {ℓ} {W : Type ℓ} where
  -- The state after a branch, and the command that it returns.
  abbrev pub enter :
      AvoidanceState W → AvoidancePhase → ℕ → Command → AvoidanceState W × Option Command
  enter s p n c = (record s { current_phase = p; step_count = n }, some c)

module _ {ℓ} {W : Type ℓ} ⦃f : Float W⦄ where
  unfoldable pub simple_in :
      AvoidancePhase → W → AvoidanceState W → AvoidanceState W × Option Command
  simple_in detecting now s =
      enter (record s { start_time = now }) planning 0 (command stop_all_motors 0 500 avoiding)
  simple_in planning now s = enter s avoiding 1 (command spin_right_in_place 60 1000 avoiding)
  simple_in avoiding now s =
      if s.step_count == 1
      then enter s avoiding 2 (command move_straight_forward 50 1500 avoiding)
      else if s.step_count == 2
      then enter s returning 3 (command spin_left_in_place 60 1000 returning)
      else (s, none)
  simple_in returning now s =
      enter s completed s.step_count (command move_straight_forward 70 500 completed)
  simple_in completed now s =
      (reset_avoidance_state s, some (command continue_normal_driving 80 0 detecting))

  unfoldable pub execute_simple_right_turn_avoidance :
      W → AvoidanceState W → AvoidanceState W × Option Command
  unfolding simple_in
  execute_simple_right_turn_avoidance now s = simple_in s.current_phase now s

  -- Where no branch returns, the code goes on to the simple strategy.
  unfoldable pub smart_in :
      AvoidancePhase → W → AvoidanceState W → AvoidanceState W × Option Command
  smart_in detecting now s = enter s planning 0 (command stop_all_motors 0 300 planning)
  smart_in planning now s =
      if s.step_count == 0
      then enter s planning 1 (scanning right_side)
      else if s.step_count == 1
      then enter s planning 2 (command spin_left_in_place 30 500 planning)
      else if s.step_count == 2
      then enter s planning 3 (scanning left_side)
      else if s.step_count == 3
      then enter s avoiding 4 (command spin_right_in_place 30 250 avoiding)
      else execute_simple_right_turn_avoidance now s
  smart_in avoiding now s =
      if s.step_count == 4
      then enter s avoiding 5 (command move_straight_forward 60 2000 returning)
      else execute_simple_right_turn_avoidance now s
  smart_in _ now s = execute_simple_right_turn_avoidance now s

  unfoldable pub execute_smart_side_selection_avoidance :
      W → AvoidanceState W → AvoidanceState W × Option Command
  unfolding smart_in
  execute_smart_side_selection_avoidance now s = smart_in s.current_phase now s

  -- Along the wall, at the target distance of 25 cm.
  unfoldable pub follow_wall : Option W → AvoidanceState W → AvoidanceState W × Option Command
  follow_wall none s = (s, some (command move_straight_forward 40 500 avoiding))
  follow_wall (some d) s =
      if f.lt d (f.sub (of_ℕ 25) (of_ℕ 5))
      then (s, some (command turn_left_to_follow_line 45 300 avoiding))
      else if f.lt (f.add (of_ℕ 25) (of_ℕ 10)) d
      then (s, some (command turn_right_to_follow_line 45 300 avoiding))
      else let n = s.step_count + 1 in
        if ltb 15 n
        then enter s returning n (command move_straight_forward 60 200 returning)
        else enter s s.current_phase n (command move_straight_forward 60 200 avoiding)

  -- `planning` is not tested for: it falls to the last branch.
  unfoldable pub wall_in :
      AvoidancePhase → Option W → AvoidanceState W → AvoidanceState W × Option Command
  unfolding follow_wall
  wall_in detecting d s = enter s avoiding 0 (command spin_right_in_place 50 700 avoiding)
  wall_in avoiding d s = follow_wall d s
  wall_in returning d s =
      enter s completed s.step_count (command spin_left_in_place 50 700 completed)
  wall_in _ d s = (reset_avoidance_state s, some (command continue_normal_driving 80 0 detecting))

  unfoldable pub execute_wall_following_avoidance :
      Option W → AvoidanceState W → AvoidanceState W × Option Command
  unfolding wall_in
  execute_wall_following_avoidance d s = wall_in s.current_phase d s

  unfoldable pub reverse_in : AvoidancePhase → AvoidanceState W → AvoidanceState W × Option Command
  reverse_in detecting s = enter s planning 0 (command move_straight_backward 50 1500 planning)
  reverse_in planning s =
      if s.step_count == 0
      then enter s avoiding 1 (command spin_right_in_place 60 1500 avoiding)
      else (s, none)
  reverse_in avoiding s =
      if s.step_count == 1
      then enter s avoiding 2 (command move_straight_forward 40 1000 avoiding)
      else if s.step_count == 2
      then enter s avoiding 3 (command move_straight_backward 50 1000 avoiding)
      else if s.step_count == 3
      then enter s avoiding 4 (command spin_left_in_place 60 3000 avoiding)
      else if s.step_count == 4
      then enter s returning 5 (command move_straight_forward 40 1000 returning)
      else (s, none)
  reverse_in returning s =
      enter s completed s.step_count (command move_straight_forward 60 500 completed)
  reverse_in completed s =
      (reset_avoidance_state s, some (command continue_normal_driving 80 0 detecting))

  unfoldable pub execute_reverse_and_retry_avoidance :
      AvoidanceState W → AvoidanceState W × Option Command
  unfolding reverse_in
  execute_reverse_and_retry_avoidance s = reverse_in s.current_phase s

  -- The text of the reason formats the distance, which raises if it is `None`; the phase has been
  -- written by then.
  unfoldable pub execute_emergency_stop_avoidance :
      Option W → AvoidanceState W → AvoidanceState W × Result (Option Command)
  execute_emergency_stop_avoidance none s =
      (record s { current_phase = completed }, raise type_error)
  execute_emergency_stop_avoidance (some d) s = (
    record s { current_phase = completed },
    ok (some (record (command stop_all_motors 0 0 completed) { next_phase = to_emergency })),
  )
