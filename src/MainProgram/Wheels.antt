-- ===== src/MainProgram/Wheels.antt =====
-- The wheels of the robot over any history.
use adeept_awr.Common.{
  ℕ, refl, Bool, true, false, not, ◌&&◌, Option, none, some, List, [], ◌∷◌, Float, of_ℕ, Answer,
  gives, raises, arith, ℤ, if◌then◌else◌, get_elem?,
}
use adeept_awr.Hardware.{
  speeds-IsDriven, each_levels, initial_gear, Levels, get_line_position, pattern_of, position_map,
  allowed, IsDriven, stop_gear-IsDriven,
}
use adeept_awr.MainProgram.State.{
  RobotMode, idle_mode, manual, line_following_mode, obstacle_avoidance_mode, auto_navigation,
  emergency_stop_mode, Thread, at_test, in_body, ended, AutonomousRobot, Loading, loaded,
  not_available, fails, same_mode, initialize_simulation, initialize_hardware, initial_robot,
  start_robot, stop_robot, set_mode, cleanup,
}
use adeept_awr.MainProgram.Modes.{
  Input, idle_mode_round, search_line, follow, has_motors, follow_levels, line_following_mode_round,
  emergency_stop_mode_round, distance_or_far, avoid_at, avoid_echo, obstacle_avoidance_mode_round,
  is_near, navigate, auto_navigation_mode_round, round_in, after_round, leave_loop, is_break,
  control_loop_step,
}
use adeept_awr.MainProgram.Commands.{
  Key, key_q, key_1, key_2, key_3, key_4, key_s, key_w, key_a, key_d, key_space, key_servo,
  key_center, key_sweep, key_other, Word, move_forward, turn_left, turn_right, drive_in, servo_to,
  obey, interactive_command, Event, command, signal, quit, thread, thread_at, happen, history,
}

module _ {ℓ} {W : Type ℓ} where
  abbrev Drives : AutonomousRobot W → Type 0
  Drives s = IsDriven 70 s.motor_controller

  abbrev DrivesIfGives : Answer (AutonomousRobot W) → Type 0
  DrivesIfGives (gives s) = Drives s
  DrivesIfGives raises = Unit

  if-Drives :
      (b : Bool) (s t : AutonomousRobot W) → Drives s → Drives t → Drives (if b then s else t)
  if-Drives true s t h k = h
  if-Drives false s t h k = k

  if_gives-Drives :
      (b : Bool) (r t : Answer (AutonomousRobot W))
      → DrivesIfGives r
      → DrivesIfGives t
      → DrivesIfGives (if b then r else t)
  if_gives-Drives true r t h k = h
  if_gives-Drives false r t h k = k

  follow-Drives : (l : Levels) (s : AutonomousRobot W) → Drives (follow (get_line_position l) s)
  unfolding get_line_position pattern_of position_map search_line
  follow-Drives l s =
      let o = s.motor_controller in
      each_levels (λ t. Drives (follow (get_line_position t) s))
        (speeds-IsDriven _ _ o refl (omega arith) (omega arith))
        (speeds-IsDriven _ _ o refl (omega arith) (omega arith))
        (speeds-IsDriven _ _ o refl (omega arith) (omega arith))
        (speeds-IsDriven _ _ o refl (omega arith) (omega arith))
        (speeds-IsDriven _ _ o refl (omega arith) (omega arith))
        (speeds-IsDriven _ _ o refl (omega arith) (omega arith))
        (speeds-IsDriven _ _ o refl (omega arith) (omega arith))
        (speeds-IsDriven _ _ o refl (omega arith) (omega arith)) l

  line_round-Drives :
      (i : Input W) (s : AutonomousRobot W)
      → Drives s
      → DrivesIfGives (line_following_mode_round i s)
  unfolding line_following_mode_round
  line_round-Drives i s h =
      if_gives-Drives (s.line_sensor && has_motors s) _ _ (by_answer i.levels) h
    where
      by_answer : (a : Answer Levels) → DrivesIfGives (follow_levels a s)
      by_answer (gives l) = follow-Drives l s
      by_answer raises = tt

module _ {ℓ} {W : Type ℓ} ⦃f : Float W⦄ where
  avoid_at-Drives : (d : W) (s : AutonomousRobot W) → Drives (avoid_at d s)
  avoid_at-Drives d s =
      let o = s.motor_controller in
      if-Drives (f.lt d (of_ℕ 10)) _ _ (stop_gear-IsDriven 70 o) (
        if-Drives (f.lt d (of_ℕ 20)) _ _ (speeds-IsDriven _ _ o refl (omega arith) (omega arith)) (
          if-Drives (f.lt d (of_ℕ 40)) _ _ (speeds-IsDriven _ _ o refl (omega arith) (omega arith))
            (speeds-IsDriven _ _ o refl (omega arith) (omega arith))))

  avoid_round-Drives :
      (a : Answer (Option W)) (s : AutonomousRobot W)
      → Drives s
      → DrivesIfGives (obstacle_avoidance_mode_round a s)
  unfolding obstacle_avoidance_mode_round
  avoid_round-Drives a s h =
      if_gives-Drives (s.ultrasonic_sensor && has_motors s) _ _ (by_answer a) h
    where
      by_answer : (a : Answer (Option W)) → DrivesIfGives (avoid_echo a s)
      by_answer (gives o) = avoid_at-Drives (distance_or_far o) s
      by_answer raises = tt

  auto_round-Drives :
      (i : Input W) (s : AutonomousRobot W)
      → Drives s
      → DrivesIfGives (auto_navigation_mode_round i s)
  unfolding auto_navigation_mode_round
  auto_round-Drives i s h =
      if_gives-Drives (s.line_sensor && (s.ultrasonic_sensor && has_motors s)) _ _
        (by_answer i.first_echo) h
    where
      by_answer : (a : Answer (Option W)) → DrivesIfGives (navigate a i s)
      by_answer (gives o) =
          if_gives-Drives (is_near o) _ _ (avoid_round-Drives i.second_echo s h)
            (line_round-Drives i s h)
      by_answer raises = tt

  round-Drives :
      (m : RobotMode) (i : Input W) (s : AutonomousRobot W)
      → Drives s
      → DrivesIfGives (round_in m i s)
  unfolding idle_mode_round emergency_stop_mode_round
  round-Drives idle_mode i s h = stop_gear-IsDriven 70 s.motor_controller
  round-Drives line_following_mode i s h = line_round-Drives i s h
  round-Drives obstacle_avoidance_mode i s h = avoid_round-Drives i.first_echo s h
  round-Drives auto_navigation i s h = auto_round-Drives i s h
  round-Drives emergency_stop_mode i s h = stop_gear-IsDriven 70 s.motor_controller
  round-Drives manual i s h = h

  after-Drives :
      (b : Bool) (a : Answer (AutonomousRobot W)) (s : AutonomousRobot W)
      → DrivesIfGives a
      → Drives (after_round b a s).0
  after-Drives true (gives t) s h = stop_gear-IsDriven 70 t.motor_controller
  after-Drives false (gives t) s h = h
  after-Drives b raises s h = stop_gear-IsDriven 70 s.motor_controller

  loop-Drives :
      (i : Input W) (t : Thread) (s : AutonomousRobot W)
      → Drives s
      → Drives (control_loop_step i t s).0
  unfolding control_loop_step
  loop-Drives i at_test s h = by_test (s.is_running && not s.emergency_stop)
    where
      by_test : (b : Bool) → Drives (if b then (s, in_body) else leave_loop s).0
      by_test true = h
      by_test false = stop_gear-IsDriven 70 s.motor_controller
  loop-Drives i in_body s h =
      after-Drives (is_break s.current_mode) (round_in s.current_mode i s) s
        (round-Drives s.current_mode i s h)
  loop-Drives i ended s h = h

  mode-Drives : (m : RobotMode) (s : AutonomousRobot W) → Drives s → Drives (set_mode m s)
  unfolding set_mode
  mode-Drives m s h = if-Drives (same_mode m s.current_mode) _ _ h h

  drive_in-Drives : (m : RobotMode) (s : AutonomousRobot W) → Drives s → Drives (drive_in m s)
  unfolding start_robot
  drive_in-Drives m s h =
      let t = set_mode m s in let k = mode-Drives m s h in if-Drives t.is_running _ _ k k

  servo-Drives :
      (int : W → ℕ) (c : Option ℤ) (a : Option W) (s : AutonomousRobot W)
      → Drives s
      → Drives (servo_to int c a s)
  servo-Drives int (some c) (some a) s h = h
  servo-Drives int (some c) none s h = h
  servo-Drives int none a s h = h

  obey-Drives :
      (int : W → ℕ) (k : Key) (ws : List (Word W)) (s : AutonomousRobot W)
      → Drives s
      → Drives (obey int k ws s)
  unfolding stop_robot move_forward turn_left turn_right set_mode
  obey-Drives int key_q ws s h = h
  obey-Drives int key_1 ws s h = drive_in-Drives line_following_mode s h
  obey-Drives int key_2 ws s h = drive_in-Drives obstacle_avoidance_mode s h
  obey-Drives int key_3 ws s h = drive_in-Drives auto_navigation s h
  obey-Drives int key_4 ws s h = stop_gear-IsDriven 70 _
  obey-Drives int key_s ws s h = h
  obey-Drives int key_w ws s h =
      speeds-IsDriven _ _ s.motor_controller refl (omega arith) (omega arith)
  obey-Drives int key_a ws s h =
      speeds-IsDriven _ _ s.motor_controller refl (omega arith) (omega arith)
  obey-Drives int key_d ws s h =
      speeds-IsDriven _ _ s.motor_controller refl (omega arith) (omega arith)
  obey-Drives int key_space ws s h =
      mode-Drives idle_mode (stop_robot s) (stop_gear-IsDriven 70 s.motor_controller)
  obey-Drives int key_servo ws s h = ground arith
  obey-Drives int key_center ws s h = ground arith
  obey-Drives int key_sweep ws s h = ground arith
  obey-Drives int key_other ws s h = h

  event-Drives :
      (int : W → ℕ) (e : Event W) (s : AutonomousRobot W) → Drives s → Drives (happen int e s)
  unfolding happen interactive_command cleanup
  event-Drives int (command []) s h = h
  event-Drives int (command (w ∷ ws)) s h = obey-Drives int w.key ws s h
  event-Drives int signal s h = stop_gear-IsDriven 70 _
  event-Drives int quit s h = stop_gear-IsDriven 70 _
  event-Drives int (thread k i) s h = by_thread (get_elem? s.threads k)
    where
      by_thread : (o : Option Thread) → Drives (thread_at k i o s)
      by_thread none = h
      by_thread (some t) = loop-Drives i t s h

  history-Drives :
      (int : W → ℕ) (es : List (Event W)) (s : AutonomousRobot W)
      → Drives s
      → Drives (history int es s)
  unfolding history
  history-Drives int [] s h = h
  history-Drives int (e ∷ es) s h = history-Drives int es (happen int e s) (event-Drives int e s h)

  initial-Drives : (o : Loading W) → Drives (initial_robot o)
  unfolding initial_robot initialize_hardware initialize_simulation initial_gear
  initial-Drives (loaded v) = allowed 70 _ _ refl (omega arith) (omega arith)
  initial-Drives not_available = tt
  initial-Drives fails = tt

  -- However the hardware was loaded, and whatever the user commands and the sensors show: after each
  -- event at most one of the wheels goes backward, and neither is driven at more than 70 percent.  So
  -- no command makes the robot go back, also `s` in the manual mode, which shows the sensors instead.
  pub robot_never_reverses :
      (int : W → ℕ) (o : Loading W) (es : List (Event W))
      → IsDriven 70 (history int es (initial_robot o)).motor_controller
  robot_never_reverses int o es = history-Drives int es (initial_robot o) (initial-Drives o)
