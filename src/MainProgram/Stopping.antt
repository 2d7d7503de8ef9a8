-- ===== src/MainProgram/Stopping.antt =====
-- How the control threads of main.py end.
use adeept_awr.Common.{
  ℕ, ◌≡◌, refl, Bool, true, false, Option, none, some, List, [], ◌∷◌, Float, Answer, gives, raises,
  arith, get_elem?, set_elem, get_elem?-set_elem, ◌∙◌, ap,
}
use adeept_awr.Hardware.{Gear, motor_stop, stop_gear}
use adeept_awr.MainProgram.State.{
  RobotMode, idle_mode, manual, line_following_mode, obstacle_avoidance_mode, auto_navigation,
  emergency_stop_mode, Thread, at_test, in_body, ended, AutonomousRobot, start_robot, stop_robot,
  signal_handler, set_mode, cleanup,
}
use adeept_awr.MainProgram.Modes.{
  Input, idle_mode_round, search_line, line_following_mode_round, emergency_stop_mode_round,
  obstacle_avoidance_mode_round, auto_navigation_mode_round, round_in, after_round, leave_loop,
  is_break, control_loop_step,
}
use adeept_awr.MainProgram.Commands.{drive_in, signal, thread, happen, history}

-- The motors are stopped, if there are any.
abbrev pub IsStopped : Option Gear → Type 0
IsStopped o = o ≡ stop_gear o

stop_gear-IsStopped : (o : Option Gear) → IsStopped (stop_gear o)
unfolding motor_stop
stop_gear-IsStopped none = refl
stop_gear-IsStopped (some g) = refl

module _ {ℓ} {W : Type ℓ} ⦃f : Float W⦄ where
  -- The `k`-th thread has left the loop, with the motors stopped.
  pub record HasLeft (k : ℕ) (s : AutonomousRobot W) : Type ℓ where
    pub emergency : s.emergency_stop ≡ true
    pub stopped : IsStopped s.motor_controller
    pub thread_ended : get_elem? s.threads k ≡ some ended

  -- An emergency stays, and so do the threads, in a round that gives a robot.
  abbrev Stays : AutonomousRobot W → Answer (AutonomousRobot W) → Type 0
  Stays s raises = Unit
  Stays s (gives t) = (t.emergency_stop ≡ s.emergency_stop) × (t.threads ≡ s.threads)

  round-Stays : (m : RobotMode) (i : Input W) (s : AutonomousRobot W) → Stays s (round_in m i s)
  unfolding idle_mode_round emergency_stop_mode_round line_following_mode_round
      obstacle_avoidance_mode_round auto_navigation_mode_round search_line
  round-Stays idle_mode i s = (refl, refl)
  round-Stays line_following_mode i s = ground arith
  round-Stays obstacle_avoidance_mode i s = ground arith
  round-Stays auto_navigation i s = ground arith
  round-Stays emergency_stop_mode i s = (refl, refl)
  round-Stays manual i s = (refl, refl)

  -- What a thread is about to do in an emergency: it has its test before it, or it has ended with
  -- the motors stopped.
  abbrev Leaving : AutonomousRobot W × Thread → Type 0
  Leaving (s, at_test) = s.emergency_stop ≡ true
  Leaving (s, in_body) = ⊥
  Leaving (s, ended) = (s.emergency_stop ≡ true) × IsStopped s.motor_controller

  after-Leaving :
      (b : Bool) (a : Answer (AutonomousRobot W)) (s : AutonomousRobot W)
      → s.emergency_stop ≡ true
      → Stays s a
      → Leaving (after_round b a s)
  after-Leaving true (gives t) s h k = (k.0 ∙ h, stop_gear-IsStopped t.motor_controller)
  after-Leaving false (gives t) s h k = k.0 ∙ h
  after-Leaving b raises s h k = (refl, stop_gear-IsStopped s.motor_controller)

  threads-Leaving :
      (ts : List Thread) (s : AutonomousRobot W) (t : Thread)
      → Leaving (s, t)
      → Leaving (record s { threads = ts }, t)
  threads-Leaving ts s at_test h = h
  threads-Leaving ts s in_body h = h
  threads-Leaving ts s ended h = h

  after-threads :
      (b : Bool) (a : Answer (AutonomousRobot W)) (s : AutonomousRobot W)
      → Stays s a
      → (after_round b a s).0.threads ≡ s.threads
  after-threads true (gives t) s k = k.1
  after-threads false (gives t) s k = k.1
  after-threads b raises s k = refl

  test-leaves :
      (j : Input W) (s : AutonomousRobot W)
      → s.emergency_stop ≡ true
      → control_loop_step j at_test s ≡ leave_loop s
  unfolding control_loop_step
  test-leaves j s h = ground arith

  leave-HasLeft :
      (int : W → ℕ) (k : ℕ) (j : Input W) (s : AutonomousRobot W) (t : Thread)
      → get_elem? s.threads k ≡ some t
      → Leaving (s, t)
      → HasLeft k (happen int (thread k j) s)
  unfolding happen control_loop_step
  leave-HasLeft int k j s at_test h e =
      let out = get_elem?-set_elem s.threads k at_test ended h in
      simp (h, test-leaves j s e)
        (record {
          emergency = e;
          stopped = stop_gear-IsStopped s.motor_controller;
          thread_ended = out;
        })
  leave-HasLeft int k j s in_body h e = elim e [ ]
  leave-HasLeft int k j s ended h e =
      let out = get_elem?-set_elem s.threads k ended ended h in
      simp h (record { emergency = e.0; stopped = e.1; thread_ended = out })

  -- A step of a thread in the body of its loop, in an emergency, and what the thread does next.
  body-HasLeft :
      (int : W → ℕ) (k : ℕ) (i j : Input W) (s : AutonomousRobot W)
      → get_elem? s.threads k ≡ some in_body
      → s.emergency_stop ≡ true
      → HasLeft k (happen int (thread k j) (happen int (thread k i) s))
  unfolding happen control_loop_step
  body-HasLeft int k i j s h e =
      let b = is_break s.current_mode in
      let a = round_in s.current_mode i s in
      let stays = round-Stays s.current_mode i s in
      let (s', t') = after_round b a s in
      let same = after-threads b a s stays in
      let back =
        get_elem?-set_elem s'.threads k in_body t'
          (ap (λ (ts : List Thread). get_elem? ts k) same ∙ h) in
      simp h (
        leave-HasLeft int k j (record s' { threads = set_elem s'.threads k t' }) t' back
          (threads-Leaving (set_elem s'.threads k t') s' t' (after-Leaving b a s e stays)))

  -- After a signal, a control thread that is in the body of its loop takes its round to the end,
  -- whatever the sensors show and whatever the mode is, and leaves the loop with the motors stopped,
  -- at the latest at its next test; the emergency stays.
  pub signal_stops :
      (int : W → ℕ) (k : ℕ) (i j : Input W) (s : AutonomousRobot W)
      → get_elem? s.threads k ≡ some in_body
      → HasLeft k (history int (signal ∷ thread k i ∷ thread k j ∷ []) s)
  unfolding history happen signal_handler stop_robot cleanup
  signal_stops int k i j s h = body-HasLeft int k i j (cleanup (signal_handler s)) h refl

  drive_in-threads :
      (m : RobotMode) (s : AutonomousRobot W)
      → s.is_running ≡ true
      → (drive_in m s).threads ≡ s.threads
  unfolding start_robot set_mode
  drive_in-threads m s h = ground arith

  -- When a round raises, the thread ends with an emergency, but the robot still counts as running:
  -- a command to drive in any mode starts no thread then, until the robot has been stopped.
  pub failure_blocks_start :
      (int : W → ℕ) (k : ℕ) (i : Input W) (m : RobotMode) (s : AutonomousRobot W)
      → get_elem? s.threads k ≡ some in_body
      → s.is_running ≡ true
      → round_in s.current_mode i s ≡ raises
      → let t = happen int (thread k i) s in HasLeft k t × ((drive_in m t).threads ≡ t.threads)
  unfolding happen control_loop_step
  failure_blocks_start int k i m s h n r =
      let out = get_elem?-set_elem s.threads k in_body ended h in
      let t = record s {
        emergency_stop = true;
        motor_controller = stop_gear s.motor_controller;
        threads = set_elem s.threads k ended;
      } in
      simp (h, r)
        (
          record {
            emergency = refl;
            stopped = stop_gear-IsStopped s.motor_controller;
            thread_ended = out;
          },
          drive_in-threads m t n,
        )
