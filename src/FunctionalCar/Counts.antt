-- ===== src/FunctionalCar/Counts.antt =====
-- The counts of obstacles and avoidances, and the control threads.
use adeept_awr.Common.{
  ℕ, ◌+◌, ◌≤◌, ◌≡◌, Option, none, some, List, [], ◌∷◌, Float, arith, get_elem?, ℤ,
}
use adeept_awr.FunctionalCar.State.{Car, Input, read_line_sensor_data, measure_ultrasonic_distance}
use adeept_awr.FunctionalCar.Turns.{
  stop_motors, set_motor_speeds, drive_forward, execute_left_turn, execute_right_turn,
  execute_left_turn_with_intensity, execute_right_turn_with_intensity, search_line_by_rotation,
}
use adeept_awr.FunctionalCar.Stages.{
  evaluate_obstacle_danger_level, execute_avoidance_stage1_left_turn,
  execute_avoidance_stage2_forward, execute_avoidance_stage3_right_turn, start_obstacle_avoidance,
  force_stop_obstacle_avoidance, process_stage_1, process_stage_2, process_stage_3,
  process_avoidance_stages,
}
use adeept_awr.FunctionalCar.Following.{
  execute_line_following_drive, handle_line_lost_situation, execute_line_following_control_logic,
}
use adeept_awr.FunctionalCar.Cycle.{
  AvoidanceStatus, safe_status, drive_after, execute_obstacle_avoidance_control_logic,
  execute_integrated_driving_control,
}
use adeept_awr.FunctionalCar.Session.{
  Thread, at_test, in_body, ended, Program, UserStep, start_driving, start_avoidance, Event, user,
  thread, update_statistics, start_autonomous_driving, stop_autonomous_driving, cleanup_system,
  take, control_loop_step, thread_at, happen, history,
}

abbrev pub asks : UserStep → ℕ
asks start_avoidance = 1
asks _ = 0

-- How often a test of the user starts an avoidance.
abbrev pub tests {ℓ} : {W : Type ℓ} → List (Event W) → ℕ
tests [] = 0
tests (user now u ∷ es) = asks u + tests es
tests (thread k i ∷ es) = tests es

module _ {ℓ} {W : Type ℓ} where
  abbrev pub obstacles : Car W → ℕ
  obstacles s = s.statistics.obstacle_detected_count

  abbrev pub avoidances : Car W → ℕ
  avoidances s = s.statistics.avoidance_action_count

  -- Between two states of the car: as many avoidances as obstacles are new, and `n` more at most.
  record Counted (n : ℕ) (s t : Car W) : Type 0 where
    enough : obstacles t + avoidances s ≤ avoidances t + obstacles s
    at_most : avoidances t + obstacles s ≤ obstacles t + avoidances s + n

  drive-Counted : (p : ℤ) (s : Car W) → Counted 0 s (execute_line_following_drive p s)
  unfolding execute_line_following_drive drive_forward set_motor_speeds execute_left_turn
      execute_right_turn execute_left_turn_with_intensity execute_right_turn_with_intensity
  drive-Counted p s = ground arith

  follow-Counted :
      (o : Option ℤ) (s : Car W) → Counted 0 s (execute_line_following_control_logic o s)
  unfolding execute_line_following_control_logic handle_line_lost_situation stop_motors
      search_line_by_rotation set_motor_speeds
  follow-Counted none s = ground arith
  follow-Counted (some p) s =
      let h = drive-Counted p (record s { line_lost_counter = 0; last_line_position = p }) in
      record { enough = h.enough; at_most = h.at_most }

  after-Counted : (a : AvoidanceStatus) (i : Input W) (s : Car W) → Counted 0 s (drive_after a i s)
  after-Counted safe_status i s = follow-Counted (read_line_sensor_data i s) s
  after-Counted _ i s = record { enough = omega arith; at_most = omega arith }

  then-Counted : (m n : ℕ) (s t u : Car W) → Counted m s t → Counted n t u → Counted (m + n) s u
  then-Counted m n s t u h k = record {
    enough = omega (arith, h.enough, k.enough);
    at_most = omega (arith, h.at_most, k.at_most);
  }

module _ {ℓ} {W : Type ℓ} ⦃f : Float W⦄ where
  avoid-Counted :
      (d now : W) (s : Car W) → Counted 0 s (execute_obstacle_avoidance_control_logic d now s).0
  unfolding execute_obstacle_avoidance_control_logic evaluate_obstacle_danger_level
      start_obstacle_avoidance process_avoidance_stages process_stage_1 process_stage_2
      process_stage_3 execute_avoidance_stage1_left_turn execute_avoidance_stage2_forward
      execute_avoidance_stage3_right_turn set_motor_speeds drive_forward
  avoid-Counted d now s = ground arith

  cycle-Counted : (i : Input W) (s : Car W) → Counted 0 s (execute_integrated_driving_control i s)
  unfolding execute_integrated_driving_control
  cycle-Counted i s =
      let r = execute_obstacle_avoidance_control_logic (measure_ultrasonic_distance i s) i.now s in
      then-Counted 0 0 s r.0 _ (avoid-Counted (measure_ultrasonic_distance i s) i.now s)
        (after-Counted r.1 i r.0)

  take-Counted : (now : W) (u : UserStep) (s : Car W) → Counted (asks u) s (take now u s)
  unfolding take stop_autonomous_driving cleanup_system force_stop_obstacle_avoidance
      start_obstacle_avoidance stop_motors update_statistics execute_avoidance_stage1_left_turn
      execute_avoidance_stage2_forward execute_avoidance_stage3_right_turn set_motor_speeds
      drive_forward execute_left_turn execute_right_turn execute_left_turn_with_intensity
      execute_right_turn_with_intensity
  take-Counted now start_driving s = ground arith
  take-Counted now u s = ground arith

  loop-Counted : (i : Input W) (t : Thread) (s : Car W) → Counted 0 s (control_loop_step i t s).0
  unfolding control_loop_step stop_motors
  loop-Counted i at_test s = ground arith
  loop-Counted i in_body s = cycle-Counted i s
  loop-Counted i ended s = record { enough = omega arith; at_most = omega arith }

  happen-Counted : (e : Event W) (p : Program W) → Counted (tests (e ∷ [])) p.car (happen e p).car
  unfolding happen start_autonomous_driving
  happen-Counted (thread k i) p = by_thread (get_elem? p.threads k)
    where
      by_thread : (o : Option Thread) → Counted 0 p.car (thread_at k i o p).car
      by_thread none = record { enough = omega arith; at_most = omega arith }
      by_thread (some t) = loop-Counted i t p.car
  happen-Counted (user now start_driving) p = ground arith
  happen-Counted (user now u) p =
      let h = take-Counted now u p.car in
      record { enough = h.enough; at_most = omega (arith, h.at_most) }

  history-Counted :
      (es : List (Event W)) (p : Program W) → Counted (tests es) p.car (history es p).car
  unfolding history
  history-Counted [] p = record { enough = omega arith; at_most = omega arith }
  history-Counted (e ∷ es) p =
      let q = happen e p in
      let h = happen-Counted e p in
      let k = history-Counted es q in
      let added : tests (e ∷ es) ≡ tests (e ∷ []) + tests es = tests-cons e es in
      record {
        enough = omega (arith, h.enough, k.enough);
        at_most = omega (arith, h.at_most, k.at_most, added);
      }
    where
      tests-cons : (e : Event W) (es : List (Event W)) → tests (e ∷ es) ≡ tests (e ∷ []) + tests es
      tests-cons (user now u) es = omega arith
      tests-cons (thread k i) es = omega arith

  -- From counts that agree, over any history: there are at least as many avoidances as obstacles,
  -- and at most as many more as the user has tested the avoidance. Without a test the two counts
  -- stay the same, so that the rate of success that the program prints is always 100 percent.
  pub avoidances_follow_obstacles :
      (es : List (Event W)) (p : Program W)
      → obstacles p.car ≡ avoidances p.car
      → let s = (history es p).car in
        (obstacles s ≤ avoidances s) × (avoidances s ≤ obstacles s + tests es)
  avoidances_follow_obstacles es p h =
      let k = history-Counted es p in (omega (arith, k.enough), omega (arith, k.at_most))
