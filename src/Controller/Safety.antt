-- ===== src/Controller/Safety.antt =====
-- What holds of the controller whatever happens, and what the emergency stop does not do.
use adeept_awr.Common.{
  ℕ, ◌≡◌, refl, ◌∙◌, ap, true, false, ◌&&◌, Option, some, List, [], ◌∷◌, Float, of_ℕ, arith,
  get_elem?, set_elem, get_elem?-set_elem, Option-cases, inl, inr,
}
use adeept_awr.Motors.State.{clamp}
use adeept_awr.Motors.Actions.{slowed}
use adeept_awr.Motors.Drive.{Motion, ahead, back, still, wheels}
use adeept_awr.Controller.Line.{
  DriveAction, forward, backward, turn_left, turn_right, pivot_left, pivot_right, stop, LineCommand,
}
use adeept_awr.Controller.Distance.{AvoidanceCommand, get_distance_with_history}
use adeept_awr.Controller.Drivers
use adeept_awr.Controller.Drivers.{
  stop_all_motors, move_forward, move_backward, control_left_motor, control_right_motor,
}
use adeept_awr.Controller.Decision.{RobotCommand, make_decision, halt}
use adeept_awr.Controller.Operations.{
  AutonomousController, SensorInput, SensorData, Thread, at_head, in_body, ended, about_to, Event,
  start, stop_requested, stop_finished, emergency_requested, step_of, start_autonomous_driving,
  request_stop, finish_stop, emergency_stop, collect_sensor_data, execute_command, stop_for,
  update_status, thread_step, step_thread, happen, history, is_stop,
}

-- What a command makes the wheels do.
abbrev pub intended : DriveAction → ℕ → Motion × Motion
intended forward v = (ahead (clamp v), ahead (clamp v))
intended backward v = (back (clamp v), back (clamp v))
intended turn_left v = (ahead (clamp (slowed v)), ahead (clamp v))
intended turn_right v = (ahead (clamp v), ahead (clamp (slowed v)))
intended pivot_left v = (back (clamp v), ahead (clamp v))
intended pivot_right v = (ahead (clamp v), back (clamp v))
intended stop v = (still, still)

module _ {ℓ} {W : Type ℓ} ⦃f : Float W⦄ where
  -- Not both running and in an emergency.
  abbrev pub IsConsistent : AutonomousController W → Type 0
  IsConsistent s = (s.is_running && s.is_emergency) ≡ false

  thread-IsConsistent :
      (i : SensorInput W) (t : Thread W) (s : AutonomousController W)
      → IsConsistent s
      → IsConsistent (thread_step i t s).0
  unfolding thread_step collect_sensor_data execute_command stop_for update_status emergency_stop
  thread-IsConsistent i at_head s h = h
  thread-IsConsistent i in_body s h = h
  thread-IsConsistent i (about_to c d) s h = ground arith
  thread-IsConsistent i ended s h = h

  happen-IsConsistent :
      (e : Event W) (s : AutonomousController W) → IsConsistent s → IsConsistent (happen e s)
  unfolding happen start_autonomous_driving request_stop finish_stop emergency_stop
  happen-IsConsistent (start mode) s h = ground arith
  happen-IsConsistent stop_requested s h = ground arith
  happen-IsConsistent stop_finished s h = ground arith
  happen-IsConsistent emergency_requested s h = refl
  happen-IsConsistent (step_of k i) s h = elim (Option-cases (get_elem? s.threads k)) [
    | inl e ↦ rw e h
    | inr (t, e) ↦ rw e (thread-IsConsistent i t s h)
  ]

  -- In whatever order starts, stops, emergency stops and the steps of the control threads come, the
  -- controller is never running and in an emergency at once.
  pub history-IsConsistent :
      (es : List (Event W)) (s : AutonomousController W)
      → IsConsistent s
      → IsConsistent (history es s)
  unfolding history
  history-IsConsistent [] s h = h
  history-IsConsistent (e ∷ es) s h =
      history-IsConsistent es (happen e s) (happen-IsConsistent e s h)

  execute-intended :
      (a : DriveAction) (c : RobotCommand) (s : AutonomousController W)
      → s.motors.are_motors_initialized ≡ true
      → wheels (execute_command a c s).motors ≡ intended a c.speed
  unfolding execute_command stop_for emergency_stop stop_all_motors move_forward move_backward
      Drivers.turn_left Drivers.turn_right Drivers.pivot_left Drivers.pivot_right control_left_motor
      control_right_motor Drivers.both
  execute-intended stop c s h = ground arith
  execute-intended _ c s h = rw h

module _ {ℓ} {W : Type ℓ} ⦃f : Float W⦄ where
  -- The `k`-th thread has left the loop, in an emergency, with the wheels as given.
  pub record LeftLoop (k : ℕ) (m : Motion × Motion) (s : AutonomousController W) : Type ℓ where
    pub emergency : s.is_emergency ≡ true
    pub not_running : s.is_running ≡ false
    pub moving : wheels s.motors ≡ m
    pub thread : get_elem? s.threads k ≡ some ended

  execute-threads :
      (a : DriveAction) (c : RobotCommand) (s : AutonomousController W)
      → (execute_command a c s).threads ≡ s.threads
  unfolding execute_command stop_for emergency_stop
  execute-threads stop c s = ground arith
  execute-threads _ c s = refl

  execute-flags :
      (a : DriveAction) (c : RobotCommand) (s : AutonomousController W)
      → is_stop a ≡ false
      → ((execute_command a c s).is_emergency ≡ s.is_emergency)
        × ((execute_command a c s).is_running ≡ s.is_running)
  unfolding execute_command
  execute-flags stop c s h = cc
  execute-flags _ c s h = (refl, refl)

  -- A thread that executes its command and comes back to the head of the loop in an emergency.
  leave :
      (k : ℕ) (i j : SensorInput W) (c : RobotCommand) (d : SensorData W)
      (s : AutonomousController W)
      → get_elem? s.threads k ≡ some (about_to c d)
      → s.motors.are_motors_initialized ≡ true
      → (execute_command c.action c s).is_emergency ≡ true
      → (execute_command c.action c s).is_running ≡ false
      → LeftLoop k (intended c.action c.speed) (happen (step_of k j) (happen (step_of k i) s))
  unfolding happen step_thread thread_step update_status
  leave k i j c d s h m e n =
      let s' = (thread_step i (about_to c d) s).0 in
      let back =
        get_elem?-set_elem s'.threads k (about_to c d) at_head
          (ap (λ (ts : List (Thread W)). get_elem? ts k) (execute-threads c.action c s) ∙ h) in
      let out = get_elem?-set_elem (set_elem s'.threads k at_head) k at_head ended back in
      let w = execute-intended c.action c s m in
      rw (h, back, e, n) (record { emergency = refl; not_running = refl; moving = w; thread = out })

  -- An emergency stop that comes when a control thread has decided on a command to move, but has not
  -- executed it yet, does not stop the robot: the thread executes the command and leaves the loop
  -- then, so that the wheels turn as the command says with the controller in an emergency and not
  -- running.
  pub emergency_loses_race :
      (k : ℕ) (i j : SensorInput W) (c : RobotCommand) (d : SensorData W)
      (s : AutonomousController W)
      → get_elem? s.threads k ≡ some (about_to c d)
      → s.motors.are_motors_initialized ≡ true
      → is_stop c.action ≡ false
      → LeftLoop k
          (intended c.action c.speed)
          (history (emergency_requested ∷ step_of k i ∷ step_of k j ∷ []) s)
  unfolding history happen emergency_stop stop_all_motors
  emergency_loses_race k i j c d s h m a =
      let s' = emergency_stop s in
      let (e, n) = execute-flags c.action c s' a in leave k i j c d s' h m e n

  near-halt :
      (line : LineCommand) (u : AvoidanceCommand W) (distance : W) (measured : Option W)
      → measured ≡ some distance
      → f.lt distance (of_ℕ 10) ≡ true
      → make_decision line u measured ≡ halt
  unfolding make_decision
  near-halt line u distance measured e near = rw (e, near)

  happen-decided :
      (k : ℕ) (i : SensorInput W) (s : AutonomousController W)
      → let (s₁, d) = collect_sensor_data i s in
        get_elem? s.threads k ≡ some in_body
        → make_decision d.line d.ultrasonic_command d.distance ≡ halt
        → happen (step_of k i) s ≡ record s₁ { threads = set_elem s₁.threads k (about_to halt d) }
  unfolding happen step_thread thread_step
  happen-decided k i s h e = rw (h, e)

  -- Left alone, a control thread that is in the loop while the distance is below 10 cm comes to an
  -- emergency stop: three steps on it has left the loop, with both wheels still.
  pub near_obstacle_stops :
      (k : ℕ) (i j l : SensorInput W) (distance : W) (s : AutonomousController W)
      → get_elem? s.threads k ≡ some in_body
      → s.motors.are_motors_initialized ≡ true
      → (get_distance_with_history (i.echoes 0) s.distance).1 ≡ some distance
      → f.lt distance (of_ℕ 10) ≡ true
      → LeftLoop k (still, still) (history (step_of k i ∷ step_of k j ∷ step_of k l ∷ []) s)
  unfolding history execute_command stop_for emergency_stop collect_sensor_data
  near_obstacle_stops k i j l distance s h m e near =
      let (s₁, d) = collect_sensor_data i s in
      let s₂ = record s₁ { threads = set_elem s₁.threads k (about_to halt d) } in
      let decided = get_elem?-set_elem s₁.threads k in_body (about_to halt d) h in
      let halts = near-halt d.line d.ultrasonic_command distance d.distance e near in
      rw (happen-decided k i s h halts) (leave k j l halt d s₂ decided m refl refl)
