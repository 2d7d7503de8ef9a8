-- ===== src/Controller/Ending.antt =====
-- What the wheels do after the cleanup.
use adeept_awr.Common.{
  ℕ, ◌≡◌, refl, ◌∙◌, ◌⊎◌, inl, inr, Bool, true, false, Option, some, none, List, [], ◌∷◌, Float,
  arith, get_elem?, if◌then◌else◌,
}
use adeept_awr.Motors.State.{
  Motors, halted, SetupOutcome, works, fails_before_stop, fails_after_stop,
}
use adeept_awr.Controller.Line.{DriveAction, stop}
use adeept_awr.Controller.Drivers
use adeept_awr.Controller.Drivers.{
  stop_all_motors, move_forward, move_backward, control_left_motor, control_right_motor,
}
use adeept_awr.Controller.Decision.{RobotCommand}
use adeept_awr.Controller.Operations.{
  AutonomousController, SensorInput, Thread, at_head, in_body, ended, about_to, Event, start,
  stop_requested, stop_finished, emergency_requested, step_of, start_autonomous_driving,
  request_stop, finish_stop, emergency_stop, collect_sensor_data, execute_command, stop_for,
  update_status, thread_step, step_thread, happen, history,
}
use adeept_awr.Controller.Session.{
  Hardware, Command, types_s, types_e, types_q, interrupts, meanwhile, initialize_all_components,
  release, cleanup, obey_commands, run_if, main,
}

-- The motors are not set up, and both are halted.
pub record IsReleased (m : Motors) : Type 0 where
  pub not_ready : m.are_motors_initialized ≡ false
  pub left_halted : m.left ≡ halted
  pub right_halted : m.right ≡ halted

-- What may happen to the motors while the robot is driven: they stay set up, or they stay released.
record Keeps (m n : Motors) : Type 0 where
  flag : n.are_motors_initialized ≡ m.are_motors_initialized
  released : IsReleased m → IsReleased n

Keeps-same : (m : Motors) → Keeps m m
Keeps-same m = record { flag = refl; released = λ h. h }

stop-Keeps : (m : Motors) → Keeps m (stop_all_motors m)
unfolding stop_all_motors
stop-Keeps m = record {
  flag = refl;
  released = λ h. record { not_ready = h.not_ready; left_halted = refl; right_halted = refl };
}

setup-IsOrderly :
    (o : SetupOutcome) (m : Motors)
    → IsReleased m
    → let n = (Drivers.initialize_gpio o m).0 in (n.are_motors_initialized ≡ true) ⊎ IsReleased n
unfolding Drivers.initialize_gpio
setup-IsOrderly works m r = inl refl
setup-IsOrderly fails_before_stop m r = inr r
setup-IsOrderly fails_after_stop m r = inr ((stop-Keeps m).released r)

module _ {ℓ} {W : Type ℓ} where
  if-Keeps :
      (b : Bool) (m : Motors) (s t : AutonomousController W)
      → Keeps m s.motors
      → Keeps m t.motors
      → Keeps m (if b then s else t).motors
  if-Keeps true m s t h k = h
  if-Keeps false m s t h k = k

module _ {ℓ} {W : Type ℓ} ⦃f : Float W⦄ where
  answer-Keeps :
      (b : Bool) (m : Motors) (x y : AutonomousController W × Bool)
      → Keeps m x.0.motors
      → Keeps m y.0.motors
      → Keeps m (if b then x else y).0.motors
  answer-Keeps true m x y h k = h
  answer-Keeps false m x y h k = k

  execute-flag :
      (a : DriveAction) (c : RobotCommand) (s : AutonomousController W)
      → (execute_command a c s).motors.are_motors_initialized ≡ s.motors.are_motors_initialized
  unfolding execute_command stop_for emergency_stop stop_all_motors move_forward move_backward
      Drivers.turn_left Drivers.turn_right Drivers.pivot_left Drivers.pivot_right control_left_motor
      control_right_motor Drivers.both
  execute-flag stop c s = ground arith
  execute-flag _ c s = ground arith

  execute-IsReleased :
      (a : DriveAction) (c : RobotCommand) (s : AutonomousController W)
      → IsReleased s.motors
      → IsReleased (execute_command a c s).motors
  unfolding execute_command stop_for emergency_stop stop_all_motors move_forward move_backward
      Drivers.turn_left Drivers.turn_right Drivers.pivot_left Drivers.pivot_right control_left_motor
      control_right_motor Drivers.both
  execute-IsReleased stop c s h = ground arith
  execute-IsReleased _ c s h = simp h.not_ready h

  thread-Keeps :
      (i : SensorInput W) (t : Thread W) (s : AutonomousController W)
      → Keeps s.motors (thread_step i t s).0.motors
  unfolding thread_step collect_sensor_data update_status
  thread-Keeps i at_head s = Keeps-same s.motors
  thread-Keeps i in_body s = Keeps-same s.motors
  thread-Keeps i (about_to c d) s = record {
    flag = execute-flag c.action c s;
    released = execute-IsReleased c.action c s;
  }
  thread-Keeps i ended s = Keeps-same s.motors

  step-Keeps :
      (o : Option (Thread W)) (k : ℕ) (i : SensorInput W) (s : AutonomousController W)
      → Keeps s.motors (step_thread o k i s).motors
  unfolding step_thread
  step-Keeps none k i s = Keeps-same s.motors
  step-Keeps (some t) k i s = thread-Keeps i t s

  happen-Keeps : (e : Event W) (s : AutonomousController W) → Keeps s.motors (happen e s).motors
  unfolding happen start_autonomous_driving request_stop finish_stop emergency_stop
  happen-Keeps (start mode) s =
      answer-Keeps s.is_running s.motors (s, false) _ (Keeps-same s.motors) (Keeps-same s.motors)
  happen-Keeps stop_requested s =
      if-Keeps s.is_running s.motors _ s (Keeps-same s.motors) (Keeps-same s.motors)
  happen-Keeps stop_finished s =
      if-Keeps s.is_stopping s.motors _ s (stop-Keeps s.motors) (Keeps-same s.motors)
  happen-Keeps emergency_requested s = stop-Keeps s.motors
  happen-Keeps (step_of k i) s = step-Keeps (get_elem? s.threads k) k i s

  -- Set up, or released.
  abbrev pub IsOrderly : AutonomousController W → Type 0
  IsOrderly s = (s.motors.are_motors_initialized ≡ true) ⊎ IsReleased s.motors

  happen-IsOrderly :
      (e : Event W) (s : AutonomousController W) → IsOrderly s → IsOrderly (happen e s)
  happen-IsOrderly e s (inl h) = inl ((happen-Keeps e s).flag ∙ h)
  happen-IsOrderly e s (inr h) = inr ((happen-Keeps e s).released h)

  history-IsOrderly :
      (es : List (Event W)) (s : AutonomousController W) → IsOrderly s → IsOrderly (history es s)
  unfolding history
  history-IsOrderly [] s h = h
  history-IsOrderly (e ∷ es) s h = history-IsOrderly es (happen e s) (happen-IsOrderly e s h)

  history-IsReleased :
      (es : List (Event W)) (s : AutonomousController W)
      → IsReleased s.motors
      → IsReleased (history es s).motors
  unfolding history
  history-IsReleased [] s h = h
  history-IsReleased (e ∷ es) s h =
      history-IsReleased es (happen e s) ((happen-Keeps e s).released h)

  release-IsReleased : (s : AutonomousController W) → IsOrderly s → IsReleased (release s).motors
  unfolding release Drivers.cleanup stop_all_motors
  release-IsReleased s (inl h) =
      simp h (record { not_ready = refl; left_halted = refl; right_halted = refl })
  release-IsReleased s (inr h) = simp h.not_ready h

  cleanup-IsReleased :
      (waiting : List (Event W)) (s : AutonomousController W)
      → IsOrderly s
      → IsReleased (cleanup waiting s).motors
  unfolding cleanup
  cleanup-IsReleased waiting s h =
      let s₁ = history (stop_requested ∷ []) s in
      let s₂ = history waiting s₁ in
      let s₃ = history (stop_finished ∷ []) s₂ in
      let h₂ = history-IsOrderly waiting s₁ (history-IsOrderly (stop_requested ∷ []) s h) in
      release-IsReleased s₃ (history-IsOrderly (stop_finished ∷ []) s₂ h₂)

  obey-IsOrderly :
      (cs : List (Command W)) (s : AutonomousController W)
      → IsOrderly s
      → IsOrderly (obey_commands cs s)
  unfolding obey_commands
  obey-IsOrderly [] s h = h
  obey-IsOrderly (types_s ∷ cs) s h = obey-IsOrderly cs _ (history-IsOrderly (_ ∷ []) s h)
  obey-IsOrderly (types_e ∷ cs) s h = obey-IsOrderly cs _ (history-IsOrderly (_ ∷ []) s h)
  obey-IsOrderly (types_q ∷ cs) s h = h
  obey-IsOrderly (interrupts ∷ cs) s h = history-IsOrderly (_ ∷ []) s h
  obey-IsOrderly (meanwhile e ∷ cs) s h = obey-IsOrderly cs _ (history-IsOrderly (e ∷ []) s h)

  run-IsOrderly :
      (ready : Bool) (cs : List (Command W)) (s : AutonomousController W)
      → IsOrderly s
      → IsOrderly (run_if ready cs s)
  run-IsOrderly true cs s h = obey-IsOrderly cs s h
  run-IsOrderly false cs s h = h

  initialize-IsOrderly :
      (h : Hardware W) (s : AutonomousController W)
      → IsReleased s.motors
      → IsOrderly (initialize_all_components h s).0
  unfolding initialize_all_components
  initialize-IsOrderly h s r = by_answer _ _ _ refl refl
    where
      m : Motors
      m = (Drivers.initialize_gpio h.motors_work s.motors).0

      by_answer :
          (b : Bool) (x y : AutonomousController W × Bool)
          → x.0.motors ≡ m
          → y.0.motors ≡ m
          → IsOrderly (if b then x else y).0
      by_answer true x y e k = rw e (setup-IsOrderly h.motors_work s.motors r)
      by_answer false x y e k = rw k (setup-IsOrderly h.motors_work s.motors r)

  -- A robot whose motors are not set up yet and are halted: after the whole program, whatever of its
  -- hardware works, whatever the user does, whatever the threads do before and while the cleanup
  -- waits for them, and even if threads that are left over and other operations go on after it, both
  -- motors are halted.
  pub main-IsReleased :
      (h : Hardware W) (cs : List (Command W)) (waiting later : List (Event W))
      (s : AutonomousController W)
      → IsReleased s.motors
      → IsReleased (history later (main h cs waiting s)).motors
  unfolding main
  main-IsReleased h cs waiting later s r =
      let (s', ready) = initialize_all_components h s in
      history-IsReleased later _
        (cleanup-IsReleased waiting _ (run-IsOrderly ready cs s' (initialize-IsOrderly h s r)))
