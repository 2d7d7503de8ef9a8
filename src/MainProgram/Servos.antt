-- ===== src/MainProgram/Servos.antt =====
-- The servo motors of the robot over any history.
use adeept_awr.Common.{
  ℕ, ◌≡◌, refl, Bool, true, false, Option, none, some, List, [], ◌∷◌, Float, of_ℕ, Answer, gives,
  raises, arith, ℤ, get_elem?, ◌||◌, ◌∙◌,
}
use adeept_awr.Hardware.{
  Servos, set_servo_angle, center_servo, sweep_servo, ArePulses, set-ArePulses, center-ArePulses,
  sweep-ArePulses, cleanup-ArePulses, AreOff, cleanup-AreOff,
}
use adeept_awr.MainProgram.State.{
  RobotMode, idle_mode, manual, line_following_mode, obstacle_avoidance_mode, auto_navigation,
  emergency_stop_mode, Thread, at_test, in_body, ended, AutonomousRobot, start_robot, stop_robot,
  signal_handler, set_mode, cleanup, clean_servos,
}
use adeept_awr.MainProgram.Modes.{
  Input, idle_mode_round, search_line, line_following_mode_round, emergency_stop_mode_round,
  obstacle_avoidance_mode_round, auto_navigation_mode_round, round_in, after_round, is_break,
  control_loop_step,
}
use adeept_awr.MainProgram.Commands.{
  Key, key_q, key_1, key_2, key_3, key_4, key_s, key_w, key_a, key_d, key_space, key_servo,
  key_center, key_sweep, key_other, Word, move_forward, turn_left, turn_right, with_servos,
  drive_in, servo_to, center_to, sweep_to, servo_words, center_words, sweep_words, obey,
  interactive_command, Event, command, signal, quit, thread, thread_at, happen, history,
}

module _ {ℓ} {W : Type ℓ} ⦃f : Float W⦄ where
  -- The pulses of the servo controller, if there is one.
  abbrev pub Pulses : (W → ℕ) → Bool → Option (Servos W) → Type ℓ
  Pulses int off none = Unit
  Pulses int off (some v) = ArePulses int off v

  abbrev SameServos : AutonomousRobot W → Answer (AutonomousRobot W) → Type ℓ
  SameServos s raises = Unit
  SameServos s (gives t) = t.servo_controller ≡ s.servo_controller

  round-SameServos :
      (m : RobotMode) (i : Input W) (s : AutonomousRobot W) → SameServos s (round_in m i s)
  unfolding idle_mode_round emergency_stop_mode_round line_following_mode_round
      obstacle_avoidance_mode_round auto_navigation_mode_round search_line
  round-SameServos idle_mode i s = refl
  round-SameServos line_following_mode i s = ground arith
  round-SameServos obstacle_avoidance_mode i s = ground arith
  round-SameServos auto_navigation i s = ground arith
  round-SameServos emergency_stop_mode i s = refl
  round-SameServos manual i s = refl

  after-servos :
      (b : Bool) (a : Answer (AutonomousRobot W)) (s : AutonomousRobot W)
      → SameServos s a
      → (after_round b a s).0.servo_controller ≡ s.servo_controller
  after-servos true (gives t) s k = k
  after-servos false (gives t) s k = k
  after-servos b raises s k = refl

  step-servos :
      (i : Input W) (t : Thread) (s : AutonomousRobot W)
      → (control_loop_step i t s).0.servo_controller ≡ s.servo_controller
  unfolding control_loop_step
  step-servos i at_test s = ground arith
  step-servos i in_body s =
      after-servos (is_break s.current_mode) (round_in s.current_mode i s) s
        (round-SameServos s.current_mode i s)
  step-servos i ended s = refl

  with-Pulses :
      (int : W → ℕ) (off : Bool) (g : Servos W → Servos W) (s : AutonomousRobot W)
      → ((v : Servos W) → ArePulses int off v → ArePulses int off (g v))
      → Pulses int off s.servo_controller
      → Pulses int off (with_servos g s).servo_controller
  with-Pulses int off g s k h = by_controller s.servo_controller k h
    where
      by_controller :
          (o : Option (Servos W))
          → ((v : Servos W) → ArePulses int off v → ArePulses int off (g v))
          → Pulses int off o
          → Pulses int off (with_servos g (record s { servo_controller = o })).servo_controller
      by_controller none k h = tt
      by_controller (some v) k h = k v h

  servo-Pulses :
      (int : W → ℕ) (off : Bool) (ws : List (Word W)) (s : AutonomousRobot W)
      → Pulses int off s.servo_controller
      → Pulses int off (servo_words int ws s).servo_controller
  servo-Pulses int off [] s h = h
  servo-Pulses int off (a ∷ []) s h = h
  servo-Pulses int off (a ∷ b ∷ []) s h = by_numbers a.as_int b.as_float
    where
      by_numbers :
          (c : Option ℤ) (d : Option W) → Pulses int off (servo_to int c d s).servo_controller
      by_numbers (some c) (some d) =
          with-Pulses int off (set_servo_angle int c d) s (λ v k. set-ArePulses int off c d v k) h
      by_numbers (some c) none = h
      by_numbers none d = h
  servo-Pulses int off (a ∷ b ∷ c ∷ ws) s h = h

  center-Pulses :
      (int : W → ℕ) (off : Bool) (ws : List (Word W)) (s : AutonomousRobot W)
      → Pulses int off s.servo_controller
      → Pulses int off (center_words int ws s).servo_controller
  center-Pulses int off [] s h = h
  center-Pulses int off (a ∷ []) s h = by_number a.as_int
    where
      by_number : (c : Option ℤ) → Pulses int off (center_to int c s).servo_controller
      by_number (some c) =
          with-Pulses int off (center_servo int c) s (λ v k. center-ArePulses int off c v k) h
      by_number none = h
  center-Pulses int off (a ∷ b ∷ ws) s h = h

  sweep-Pulses :
      (int : W → ℕ) (off : Bool) (ws : List (Word W)) (s : AutonomousRobot W)
      → Pulses int off s.servo_controller
      → Pulses int off (sweep_words int ws s).servo_controller
  sweep-Pulses int off [] s h = h
  sweep-Pulses int off (a ∷ []) s h = by_number a.as_int
    where
      by_number : (c : Option ℤ) → Pulses int off (sweep_to int c s).servo_controller
      by_number (some c) =
          with-Pulses int off (sweep_servo int c (of_ℕ 0) (of_ℕ 180) 20 1) s
            (λ v k. sweep-ArePulses int off c (of_ℕ 0) (of_ℕ 180) 20 1 v k) h
      by_number none = h
  sweep-Pulses int off (a ∷ b ∷ ws) s h = h

  mode-servos :
      (m : RobotMode) (s : AutonomousRobot W) → (set_mode m s).servo_controller ≡ s.servo_controller
  unfolding set_mode
  mode-servos m s = ground arith

  drive_in-servos :
      (m : RobotMode) (s : AutonomousRobot W) → (drive_in m s).servo_controller ≡ s.servo_controller
  unfolding start_robot set_mode
  drive_in-servos m s = ground arith

  kept-Pulses :
      (int : W → ℕ) (off : Bool) (s t : AutonomousRobot W)
      → t.servo_controller ≡ s.servo_controller
      → Pulses int off s.servo_controller
      → Pulses int off t.servo_controller
  kept-Pulses int off s t e h = rw e h

  obey-Pulses :
      (int : W → ℕ) (off : Bool) (k : Key) (ws : List (Word W)) (s : AutonomousRobot W)
      → Pulses int off s.servo_controller
      → Pulses int off (obey int k ws s).servo_controller
  unfolding stop_robot move_forward turn_left turn_right
  obey-Pulses int off key_q ws s h = h
  obey-Pulses int off key_1 ws s h =
      kept-Pulses int off s (drive_in line_following_mode s) (drive_in-servos line_following_mode s)
        h
  obey-Pulses int off key_2 ws s h =
      kept-Pulses int off s (drive_in obstacle_avoidance_mode s)
        (drive_in-servos obstacle_avoidance_mode s) h
  obey-Pulses int off key_3 ws s h =
      kept-Pulses int off s (drive_in auto_navigation s) (drive_in-servos auto_navigation s) h
  obey-Pulses int off key_4 ws s h =
      kept-Pulses int off s (set_mode manual s) (mode-servos manual s) h
  obey-Pulses int off key_s ws s h = h
  obey-Pulses int off key_w ws s h = h
  obey-Pulses int off key_a ws s h = h
  obey-Pulses int off key_d ws s h = h
  obey-Pulses int off key_space ws s h =
      let t = stop_robot s in
      kept-Pulses int off t (set_mode idle_mode t) (mode-servos idle_mode t) h
  obey-Pulses int off key_servo ws s h = servo-Pulses int off ws s h
  obey-Pulses int off key_center ws s h = center-Pulses int off ws s h
  obey-Pulses int off key_sweep ws s h = sweep-Pulses int off ws s h
  obey-Pulses int off key_other ws s h = h

  clean-Pulses :
      (int : W → ℕ) (off : Bool) (o : Option (Servos W))
      → Pulses int off o
      → Pulses int true (clean_servos o)
  clean-Pulses int off none h = tt
  clean-Pulses int off (some v) h = cleanup-ArePulses int off v h

  -- Whether an event ends the program.
  abbrev pub is_end : Event W → Bool
  is_end signal = true
  is_end quit = true
  is_end _ = false

  -- Whether the program has come to its end, where `off` is whether it had before.
  abbrev pub has_ended : Bool → List (Event W) → Bool
  has_ended off [] = off
  has_ended off (e ∷ es) = has_ended (is_end e || off) es

  event-Pulses :
      (int : W → ℕ) (off : Bool) (e : Event W) (s : AutonomousRobot W)
      → Pulses int off s.servo_controller
      → Pulses int (is_end e || off) (happen int e s).servo_controller
  unfolding happen interactive_command cleanup signal_handler stop_robot
  event-Pulses int off (command []) s h = h
  event-Pulses int off (command (w ∷ ws)) s h = obey-Pulses int off w.key ws s h
  event-Pulses int off signal s h = clean-Pulses int off s.servo_controller h
  event-Pulses int off quit s h = clean-Pulses int off s.servo_controller h
  event-Pulses int off (thread k i) s h = by_thread (get_elem? s.threads k)
    where
      by_thread : (o : Option Thread) → Pulses int off (thread_at k i o s).servo_controller
      by_thread none = h
      by_thread (some t) = kept-Pulses int off s (control_loop_step i t s).0 (step-servos i t s) h

  -- Over any history of the robot, whatever numbers the user types and whatever `int` makes of a
  -- number of degrees: every value that has been written to the chip of the servo motors is for a
  -- channel from 0 to 15, and is the pulse of an angle from 0 to 180 degrees or, only once the
  -- program has come to its end, the 0 that ends the pulses, if this was so before.
  pub history-Pulses :
      (int : W → ℕ) (off : Bool) (es : List (Event W)) (s : AutonomousRobot W)
      → Pulses int off s.servo_controller
      → Pulses int (has_ended off es) (history int es s).servo_controller
  unfolding history
  history-Pulses int off [] s h = h
  history-Pulses int off (e ∷ es) s h =
      history-Pulses int (is_end e || off) es (happen int e s) (event-Pulses int off e s h)

  -- The channels of the servo controller, if there is one, are off.
  abbrev pub ServosOff : Option (Servos W) → Type 0
  ServosOff none = Unit
  ServosOff (some v) = AreOff v

  clean-ServosOff : (o : Option (Servos W)) → ServosOff (clean_servos o)
  clean-ServosOff none = tt
  clean-ServosOff (some v) = cleanup-AreOff v

  end-ServosOff :
      (int : W → ℕ) (e : Event W) (s : AutonomousRobot W)
      → is_end e ≡ true
      → ServosOff (happen int e s).servo_controller
  unfolding happen cleanup signal_handler stop_robot
  end-ServosOff int (command ws) s h = cc
  end-ServosOff int signal s h = clean-ServosOff s.servo_controller
  end-ServosOff int quit s h = clean-ServosOff s.servo_controller
  end-ServosOff int (thread k i) s h = cc

  -- The steps of the control threads, each with the number of the thread.
  abbrev pub steps : List (ℕ × Input W) → List (Event W)
  steps [] = []
  steps ((k, i) ∷ ks) = thread k i ∷ steps ks

  thread-servos :
      (int : W → ℕ) (k : ℕ) (i : Input W) (s : AutonomousRobot W)
      → (happen int (thread k i) s).servo_controller ≡ s.servo_controller
  unfolding happen
  thread-servos int k i s = by_thread (get_elem? s.threads k)
    where
      by_thread : (o : Option Thread) → (thread_at k i o s).servo_controller ≡ s.servo_controller
      by_thread none = refl
      by_thread (some t) = step-servos i t s

  steps-servos :
      (int : W → ℕ) (ks : List (ℕ × Input W)) (s : AutonomousRobot W)
      → (history int (steps ks) s).servo_controller ≡ s.servo_controller
  unfolding history
  steps-servos int [] s = refl
  steps-servos int ((k, i) ∷ ks) s =
      steps-servos int ks (happen int (thread k i) s) ∙ thread-servos int k i s

  -- When the program ends, by a signal or at the wish of the user, and whatever was done with the
  -- servo motors before: the last value that was written for each of the channels 0 to 15 is the 0
  -- that ends its pulses, where there is a chip and it takes the values, and no steps of leftover
  -- control threads change it.
  pub end_stays-ServosOff :
      (int : W → ℕ) (e : Event W) (ks : List (ℕ × Input W)) (s : AutonomousRobot W)
      → is_end e ≡ true
      → ServosOff (history int (e ∷ steps ks) s).servo_controller
  unfolding history
  end_stays-ServosOff int e ks s h =
      rw (steps-servos int ks (happen int e s)) (end-ServosOff int e s h)
