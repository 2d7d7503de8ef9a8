-- ===== src/Robot/Ending.antt =====
-- How a drive ends, and what a session leaves.
use adeept_awr.Common.{
  ℕ, suc, ◌+◌, ◌≡◌, refl, ◌∙◌, ap, Bool, true, false, List, [], ◌∷◌, Float, Result, ok, raise,
  key_error, arith, if◌then◌else◌, inl, inr, ◌⊎◌,
}
use adeept_awr.Vocabulary.{DangerLevel, safe, caution, dangerous, very_dangerous, unknown}
use adeept_awr.Motors.State.{
  Motors, stop_all_motors_immediately, setup_all_motor_pins_and_pwm_controllers,
}
use adeept_awr.Motors.Drive.{still, wheels, execute-initialized}
use adeept_awr.Rotary.Decision.{Decision}
use adeept_awr.Robot.State.{
  Robot, handle_emergency_stop_signal, restart_robot_system, initialize_all_robot_hardware_systems,
  setup_ultrasonic_sensor_pins, cleanup_ultrasonic_resources,
  cleanup_all_robot_resources_before_exit,
}
use adeept_awr.Robot.Fusion.{
  CycleInput, FinalDecision, collect_all_sensor_data_and_analyze, execute_robot_control_command,
  complete, run_one_complete_control_cycle,
}
use adeept_awr.Robot.Loop.{
  stop_motors, driving, drive_unless, main_autonomous_driving_loop, UserCommand, start_driving,
  restart_system, quit_program, obey, session,
}
use adeept_awr.Robot.Cycle.{level_of, line_of, planned, cycle-planned}

abbrev pub is_dangerous_level : DangerLevel → Bool
is_dangerous_level dangerous = true
is_dangerous_level _ = false

abbrev pub count_ok {ℓ} : {A : Type ℓ} → Result A → ℕ
count_ok (ok a) = 1
count_ok (raise e) = 0

-- A cycle raises exactly at a `dangerous` obstacle.
Ends : Bool → Result FinalDecision → Type 0
Ends dangerous_seen r =
    ((dangerous_seen ≡ true) × (r ≡ raise key_error))
    ⊎ ((dangerous_seen ≡ false) × ((d : FinalDecision) × (r ≡ ok d)))

stop-initialized :
    (m : Motors) → (stop_all_motors_immediately m).are_motors_initialized ≡ m.are_motors_initialized
unfolding stop_all_motors_immediately
stop-initialized m = ground arith

stopped_wheels :
    (m : Motors)
    → m.are_motors_initialized ≡ true
    → wheels (stop_all_motors_immediately m) ≡ (still, still)
unfolding stop_all_motors_immediately
stopped_wheels m h = rw h

module _ {ℓ} {W : Type ℓ} ⦃f : Float W⦄ where
  -- What a cycle keeps, and how it counts.
  record Cycled (s t : Robot W) (r : Result FinalDecision) : Type ℓ where
    initialized : t.motors.are_motors_initialized ≡ s.motors.are_motors_initialized
    avoidance : t.avoidance ≡ s.avoidance
    signal : t.should_stop_robot ≡ s.should_stop_robot
    loops : t.total_control_loops ≡ s.total_control_loops + count_ok r

  complete-Cycled :
      (r : Result FinalDecision) (i : CycleInput W) (s : Robot W)
      → let (t, q) = complete r (collect_all_sensor_data_and_analyze i s).0 in Cycled s t q
  unfolding complete collect_all_sensor_data_and_analyze execute_robot_control_command
  complete-Cycled (ok d) i s = record {
    initialized = execute-initialized d.final_action d.final_speed s.motors;
    avoidance = refl;
    signal = refl;
    loops = omega arith;
  }
  complete-Cycled (raise e) i s = record {
    initialized = refl;
    avoidance = refl;
    signal = refl;
    loops = omega arith;
  }

  cycle-Cycled :
      (i : CycleInput W) (s : Robot W)
      → let (t, r) = run_one_complete_control_cycle i s in Cycled s t r
  cycle-Cycled i s =
      rw (cycle-planned i s) (complete-Cycled (planned (level_of i s) (line_of i s)) i s)

  -- The cycles that are completed before the first one that sees a `dangerous` obstacle.
  abbrev pub calm_cycles : List (CycleInput W) → Robot W → ℕ
  calm_cycles [] s = 0
  calm_cycles (i ∷ is) s =
      let rest = calm_cycles is (run_one_complete_control_cycle i s).0 in
      if is_dangerous_level (level_of i s) then 0 else suc rest

  planned-Ends :
      (p : DangerLevel) (d : Decision) (t : Robot W)
      → Ends (is_dangerous_level p) (complete (planned p d) t).1
  unfolding Ends complete
  planned-Ends dangerous d t = inl (refl, refl)
  planned-Ends very_dangerous d t = inr (refl, (_, refl))
  planned-Ends caution d t = inr (refl, (_, refl))
  planned-Ends safe d t = inr (refl, (_, refl))
  planned-Ends unknown d t = inr (refl, (_, refl))

  cycle-Ends :
      (i : CycleInput W) (s : Robot W)
      → Ends (is_dangerous_level (level_of i s)) (run_one_complete_control_cycle i s).1
  cycle-Ends i s =
      rw (cycle-planned i s)
        (planned-Ends (level_of i s) (line_of i s) (collect_all_sensor_data_and_analyze i s).0)

  -- What a drive keeps, and how it counts.
  record Driven (n : ℕ) (s t : Robot W) : Type ℓ where
    initialized : t.motors.are_motors_initialized ≡ s.motors.are_motors_initialized
    avoidance : t.avoidance ≡ s.avoidance
    loops : t.total_control_loops ≡ s.total_control_loops + n

  driving-Driven :
      (is : List (CycleInput W)) (s : Robot W) → Driven (calm_cycles is s) s (driving is s)
  unfolding driving handle_emergency_stop_signal stop_motors Ends
  driving-Driven [] s = record { initialized = refl; avoidance = refl; loops = omega arith }
  driving-Driven (i ∷ is) s =
      let (t, r) = run_one_complete_control_cycle i s in
      let step = cycle-Cycled i s in
      let rest = driving-Driven is t in
      elim (cycle-Ends i s) [
        | inl (seen, e) ↦
            rw (seen, e)
              (record {
                initialized = stop-initialized t.motors ∙ step.initialized;
                avoidance = step.avoidance;
                loops =
                    step.loops
                    ∙ ap (λ (q : Result FinalDecision). s.total_control_loops + count_ok q) e;
              })
        | inr (seen, (d, e)) ↦
            let counted : count_ok r ≡ 1 = rw e in
            rw (seen, e)
              (record {
                initialized = rest.initialized ∙ step.initialized;
                avoidance = rest.avoidance ∙ step.avoidance;
                loops = omega (arith, rest.loops, step.loops, counted);
              })
      ]

  unless-initialized :
      (b : Bool) (is : List (CycleInput W)) (s : Robot W)
      → (drive_unless b is s).motors.are_motors_initialized ≡ s.motors.are_motors_initialized
  unless-initialized true is s = refl
  unless-initialized false is s = let h = driving-Driven is s in h.initialized

  unless-loops :
      (b : Bool) (is : List (CycleInput W)) (s : Robot W)
      → b ≡ false
      → let t = drive_unless b is s in
        (t.total_control_loops ≡ s.total_control_loops + calm_cycles is s)
        × (t.avoidance ≡ s.avoidance)
  unless-loops true is s h = cc
  unless-loops false is s h = let k = driving-Driven is s in (k.loops, k.avoidance)

  -- However a drive ends, by the stop signal or by an exception, with motors that are set up: the
  -- program is not running then and both wheels stand still.
  pub drive_ends_still :
      (is : List (CycleInput W)) (s : Robot W)
      → s.motors.are_motors_initialized ≡ true
      → let t = main_autonomous_driving_loop is s in
        (t.is_robot_running ≡ false) × (wheels t.motors ≡ (still, still))
  unfolding main_autonomous_driving_loop stop_motors
  drive_ends_still is s h =
      let s' = record s { is_robot_running = true } in
      (
        refl,
        stopped_wheels (drive_unless s.should_stop_robot is s').motors
            (unless-initialized s.should_stop_robot is s' ∙ h),
      )

  -- A drive that is not stopped before it starts completes the cycles up to the first one that sees
  -- a `dangerous` obstacle, and no more, although the obstacle is one to avoid; the avoidance system
  -- is never used.
  pub danger_ends_drive :
      (is : List (CycleInput W)) (s : Robot W)
      → s.should_stop_robot ≡ false
      → let t = main_autonomous_driving_loop is s in
        (t.total_control_loops
          ≡ s.total_control_loops + calm_cycles is (record s { is_robot_running = true }))
        × (t.avoidance ≡ s.avoidance)
  unfolding main_autonomous_driving_loop stop_motors
  danger_ends_drive is s h =
      unless-loops s.should_stop_robot is (record s { is_robot_running = true }) h

  -- What a session keeps once the stop signal has come.
  record Signalled (s t : Robot W) : Type 0 where
    signal : t.should_stop_robot ≡ true
    loops : t.total_control_loops ≡ s.total_control_loops

  obey-Signalled :
      (c : UserCommand W) (s : Robot W) → s.should_stop_robot ≡ true → Signalled s (obey c s)
  unfolding main_autonomous_driving_loop stop_motors restart_robot_system
      initialize_all_robot_hardware_systems setup_ultrasonic_sensor_pins
      cleanup_ultrasonic_resources cleanup_all_robot_resources_before_exit
      setup_all_motor_pins_and_pwm_controllers
  obey-Signalled (start_driving is) s h = rw h (record { signal = refl; loops = refl })
  obey-Signalled (restart_system o true) s h = ground arith
  obey-Signalled (restart_system o false) s h = ground arith
  obey-Signalled quit_program s h = record { signal = h; loops = refl }

  -- Once the stop signal has come, no command of the user makes the robot drive again: no cycle is
  -- completed, neither by a new start nor after a restart of the system.
  pub signal_stays :
      (cs : List (UserCommand W)) (s : Robot W)
      → s.should_stop_robot ≡ true
      → let t = session cs s in
        (t.should_stop_robot ≡ true) × (t.total_control_loops ≡ s.total_control_loops)
  unfolding session
  signal_stays [] s h = (h, refl)
  signal_stays (c ∷ cs) s h =
      let kept = obey-Signalled c s h in
      let (signal, loops) = signal_stays cs (obey c s) kept.signal in (signal, loops ∙ kept.loops)
