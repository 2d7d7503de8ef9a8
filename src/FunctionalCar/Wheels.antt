-- ===== src/FunctionalCar/Wheels.antt =====
-- The wheels of the car over any history.
use adeept_awr.Common.{
  ◌+◌, refl, Bool, true, false, ◌||◌, Option, none, some, List, [], ◌∷◌, Float, arith, ℤ, pos,
  is_negative, is_zero, magnitude, ltb, if◌then◌else◌, get_elem?, clamp_percent, ◌==◌,
}
use adeept_awr.Hardware.{
  speeds-IsDriven, initial_gear, Allowed, allowed, IsDriven, stop_gear-IsDriven, set_gear-IsDriven,
}
use adeept_awr.FunctionalCar.State.{
  Car, Input, Loading, all_loaded, not_available, line_sensor_fails, motors_fail, ultrasonic_fails,
  initial_car, initialize_hardware, read_line_sensor_data, measure_ultrasonic_distance,
}
use adeept_awr.FunctionalCar.Turns.{
  Intensity, gentle, normal, sharp, at_intensity, stop_motors, set_motor_speeds, drive_forward,
  execute_left_turn, execute_right_turn, execute_left_turn_with_intensity,
  execute_right_turn_with_intensity, search_line_by_rotation, left, right, turn_outer_speed,
  turn_inner_speed,
}
use adeept_awr.FunctionalCar.Stages.{
  ObstacleDanger, danger, warning, caution, safe, evaluate_obstacle_danger_level,
  execute_avoidance_stage1_left_turn, execute_avoidance_stage2_forward,
  execute_avoidance_stage3_right_turn, start_obstacle_avoidance, force_stop_obstacle_avoidance,
  process_stage_1, process_stage_2, process_stage_3, process_avoidance_stages,
  apply_speed_reduction, has_lasted, left_turn_time, forward_time, right_turn_time,
}
use adeept_awr.FunctionalCar.Following.{
  execute_line_following_drive, search_again, handle_line_lost_situation,
  execute_line_following_control_logic,
}
use adeept_awr.FunctionalCar.Cycle.{
  AvoidanceStatus, safe_status, react_to, drive_after, status_of,
  execute_obstacle_avoidance_control_logic, execute_integrated_driving_control,
}
use adeept_awr.FunctionalCar.Session.{
  Thread, at_test, in_body, ended, Program, UserStep, start_driving, show_statistics, clean_up,
  start_avoidance, stage_1, stage_2, stage_3, end_avoidance, halt, turn_left, turn_right,
  go_forward, turn_left_at, turn_right_at, Event, user, thread, update_statistics,
  start_autonomous_driving, stop_autonomous_driving, cleanup_system, take, control_loop_step,
  thread_at, happen, history,
}

left_Allowed :
    (i : Intensity)
    → Allowed 60
        (clamp_percent (at_intensity i turn_outer_speed))
        (clamp_percent (at_intensity i turn_inner_speed))
left_Allowed gentle = allowed 60 _ _ refl (omega arith) (omega arith)
left_Allowed normal = allowed 60 _ _ refl (omega arith) (omega arith)
left_Allowed sharp = allowed 60 _ _ refl (omega arith) (omega arith)

right_Allowed :
    (i : Intensity)
    → Allowed 60
        (clamp_percent (at_intensity i turn_inner_speed))
        (clamp_percent (at_intensity i turn_outer_speed))
right_Allowed gentle = allowed 60 _ _ refl (omega arith) (omega arith)
right_Allowed normal = allowed 60 _ _ refl (omega arith) (omega arith)
right_Allowed sharp = allowed 60 _ _ refl (omega arith) (omega arith)

module _ {ℓ} {W : Type ℓ} where
  abbrev Drives : Car W → Type 0
  Drives s = IsDriven 60 s.motor_controller

  stop-Drives : (s : Car W) → Drives (stop_motors s)
  unfolding stop_motors
  stop-Drives s = stop_gear-IsDriven 60 s.motor_controller

  forward-Drives : (s : Car W) → Drives (drive_forward none s)
  unfolding drive_forward set_motor_speeds
  forward-Drives s = speeds-IsDriven _ _ s.motor_controller refl (omega arith) (omega arith)

  slow-Drives : (s : Car W) → Drives (drive_forward (some (apply_speed_reduction (pos 50) 6)) s)
  unfolding drive_forward set_motor_speeds apply_speed_reduction
  slow-Drives s = speeds-IsDriven _ _ s.motor_controller refl (omega arith) (omega arith)

  left-Drives : (i : Intensity) (s : Car W) → Drives (execute_left_turn_with_intensity i s)
  unfolding execute_left_turn_with_intensity set_motor_speeds
  left-Drives i s = set_gear-IsDriven 60 _ _ s.motor_controller (left_Allowed i)

  right-Drives : (i : Intensity) (s : Car W) → Drives (execute_right_turn_with_intensity i s)
  unfolding execute_right_turn_with_intensity set_motor_speeds
  right-Drives i s = set_gear-IsDriven 60 _ _ s.motor_controller (right_Allowed i)

  normal_left-Drives : (s : Car W) → Drives (execute_left_turn s)
  unfolding execute_left_turn set_motor_speeds
  normal_left-Drives s = set_gear-IsDriven 60 _ _ s.motor_controller (left_Allowed normal)

  normal_right-Drives : (s : Car W) → Drives (execute_right_turn s)
  unfolding execute_right_turn set_motor_speeds
  normal_right-Drives s = set_gear-IsDriven 60 _ _ s.motor_controller (right_Allowed normal)

  search-Drives : (s : Car W) → Drives (search_again s)
  unfolding search_line_by_rotation set_motor_speeds
  search-Drives s = by_side (is_zero s.last_line_position || is_negative s.last_line_position)
    where
      by_side :
          (b : Bool)
          → Drives (if b then search_line_by_rotation left s else search_line_by_rotation right s)
      by_side true = speeds-IsDriven _ _ s.motor_controller refl (omega arith) (omega arith)
      by_side false = speeds-IsDriven _ _ s.motor_controller refl (omega arith) (omega arith)

  stage_1-Drives : (s : Car W) → Drives (execute_avoidance_stage1_left_turn s)
  unfolding execute_avoidance_stage1_left_turn set_motor_speeds
  stage_1-Drives s = speeds-IsDriven _ _ s.motor_controller refl (omega arith) (omega arith)

  stage_2-Drives : (s : Car W) → Drives (execute_avoidance_stage2_forward s)
  unfolding execute_avoidance_stage2_forward set_motor_speeds
  stage_2-Drives s = speeds-IsDriven _ _ s.motor_controller refl (omega arith) (omega arith)

  stage_3-Drives : (s : Car W) → Drives (execute_avoidance_stage3_right_turn s)
  unfolding execute_avoidance_stage3_right_turn set_motor_speeds
  stage_3-Drives s = speeds-IsDriven _ _ s.motor_controller refl (omega arith) (omega arith)

  if-Drives : (b : Bool) (s t : Car W) → Drives s → Drives t → Drives (if b then s else t)
  if-Drives true s t h k = h
  if-Drives false s t h k = k

  drive-Drives : (p : ℤ) (s : Car W) → Drives (execute_line_following_drive p s)
  unfolding execute_line_following_drive
  drive-Drives p s = if-Drives (is_zero p) _ _ (forward-Drives s) (
      if-Drives (is_negative p) _ _
        (if-Drives (ltb 7 (magnitude p)) _ _ (right-Drives sharp s)
          (if-Drives (ltb 3 (magnitude p)) _ _ (normal_right-Drives s) (right-Drives gentle s)))
        (if-Drives (ltb 7 (magnitude p)) _ _ (left-Drives sharp s)
          (if-Drives (ltb 3 (magnitude p)) _ _ (normal_left-Drives s) (left-Drives gentle s))))

  follow-Drives : (o : Option ℤ) (s : Car W) → Drives (execute_line_following_control_logic o s)
  unfolding execute_line_following_control_logic handle_line_lost_situation
  follow-Drives none s =
      let s' = record s { line_lost_counter = s.line_lost_counter + 1 } in
      if-Drives (ltb 5 (s.line_lost_counter + 1)) _ _ (search-Drives _) (stop-Drives s')
  follow-Drives (some p) s =
      drive-Drives p (record s { line_lost_counter = 0; last_line_position = p })

  if_pair-Drives :
      {A : Type 0} (b : Bool) (r t : Car W × A)
      → Drives r.0
      → Drives t.0
      → Drives (if b then r else t).0
  if_pair-Drives true r t h k = h
  if_pair-Drives false r t h k = k

  status-Drives : (s : Car W) (b : Bool) → Drives s → Drives (status_of (s, b)).0
  status-Drives s true h = h
  status-Drives s false h = h

  loaded-Drives : (o : Loading) (s : Car W) → Drives s → Drives (initialize_hardware o s).0
  unfolding initialize_hardware initial_gear
  loaded-Drives all_loaded s h = allowed 60 _ _ refl (omega arith) (omega arith)
  loaded-Drives ultrasonic_fails s h = allowed 60 _ _ refl (omega arith) (omega arith)
  loaded-Drives not_available s h = h
  loaded-Drives line_sensor_fails s h = h
  loaded-Drives motors_fail s h = h

module _ {ℓ} {W : Type ℓ} ⦃f : Float W⦄ where
  process-Drives : (now : W) (s : Car W) → Drives s → Drives (process_avoidance_stages now s).0
  unfolding process_avoidance_stages process_stage_1 process_stage_2 process_stage_3
  process-Drives now s h =
      if_pair-Drives s.obstacle_avoidance_active _ _
        (if_pair-Drives (s.avoidance_stage == 1) _ _
          (if-Drives (has_lasted left_turn_time now s) _ _ (stage_1-Drives s) (stage_1-Drives s))
          (if_pair-Drives (s.avoidance_stage == 2) _ _
            (if-Drives (has_lasted forward_time now s) _ _ (stage_2-Drives s) (stage_2-Drives s))
            (if_pair-Drives (s.avoidance_stage == 3) _ _
              (if_pair-Drives (has_lasted right_turn_time now s) _ _ (stage_3-Drives s)
                (stage_3-Drives s))
              h)))
        h

  start-Drives : (now : W) (s : Car W) → Drives s → Drives (start_obstacle_avoidance now s)
  unfolding start_obstacle_avoidance
  start-Drives now s h = if-Drives s.obstacle_avoidance_active _ _ h h

  react-Drives : (d : ObstacleDanger) (now : W) (s : Car W) → Drives s → Drives (react_to d now s).0
  react-Drives danger now s h = start-Drives now _ h
  react-Drives warning now s h = h
  react-Drives caution now s h = slow-Drives s
  react-Drives safe now s h = h

  avoid-Drives :
      (d now : W) (s : Car W)
      → Drives s
      → Drives (execute_obstacle_avoidance_control_logic d now s).0
  unfolding execute_obstacle_avoidance_control_logic
  avoid-Drives d now s h =
      let (s', going_on) = process_avoidance_stages now s in
      if_pair-Drives s.obstacle_avoidance_active _ _
        (status-Drives s' going_on (process-Drives now s h))
        (react-Drives (evaluate_obstacle_danger_level d) now s h)

  after-Drives :
      (a : AvoidanceStatus) (i : Input W) (s : Car W) → Drives s → Drives (drive_after a i s)
  after-Drives safe_status i s h = follow-Drives (read_line_sensor_data i s) s
  after-Drives _ i s h = h

  cycle-Drives :
      (i : Input W) (s : Car W) → Drives s → Drives (execute_integrated_driving_control i s)
  unfolding execute_integrated_driving_control
  cycle-Drives i s h =
      let d = measure_ultrasonic_distance i s in
      let r = execute_obstacle_avoidance_control_logic d i.now s in
      after-Drives r.1 i r.0 (avoid-Drives d i.now s h)

  update-Drives : (now : W) (s : Car W) → Drives s → Drives (update_statistics now s)
  unfolding update_statistics
  update-Drives now s h = if-Drives _ _ _ h h

  take-Drives : (now : W) (u : UserStep) (s : Car W) → Drives s → Drives (take now u s)
  unfolding take stop_autonomous_driving cleanup_system force_stop_obstacle_avoidance
  take-Drives now start_driving s h = h
  take-Drives now show_statistics s h = update-Drives now s h
  take-Drives now clean_up s h = stop_gear-IsDriven 60 _
  take-Drives now start_avoidance s h = start-Drives now s h
  take-Drives now stage_1 s h = stage_1-Drives s
  take-Drives now stage_2 s h = stage_2-Drives s
  take-Drives now stage_3 s h = stage_3-Drives s
  take-Drives now end_avoidance s h = if-Drives s.obstacle_avoidance_active _ _ h h
  take-Drives now halt s h = stop-Drives s
  take-Drives now turn_left s h = normal_left-Drives s
  take-Drives now turn_right s h = normal_right-Drives s
  take-Drives now go_forward s h = forward-Drives s
  take-Drives now (turn_left_at i) s h = left-Drives i s
  take-Drives now (turn_right_at i) s h = right-Drives i s

  loop-Drives :
      (i : Input W) (t : Thread) (s : Car W) → Drives s → Drives (control_loop_step i t s).0
  unfolding control_loop_step
  loop-Drives i at_test s h = if_pair-Drives s.is_running _ _ h (stop-Drives s)
  loop-Drives i in_body s h = cycle-Drives i s h
  loop-Drives i ended s h = h

  if_car-Drives :
      (b : Bool) (p q : Program W) → Drives p.car → Drives q.car → Drives (if b then p else q).car
  if_car-Drives true p q h k = h
  if_car-Drives false p q h k = k

  happen-Drives : (e : Event W) (p : Program W) → Drives p.car → Drives (happen e p).car
  unfolding happen start_autonomous_driving
  happen-Drives (thread k i) p h = by_thread (get_elem? p.threads k)
    where
      by_thread : (o : Option Thread) → Drives (thread_at k i o p).car
      by_thread none = h
      by_thread (some t) = loop-Drives i t p.car h
  happen-Drives (user now start_driving) p h = if_car-Drives p.car.is_running _ _ h h
  happen-Drives (user now u) p h = take-Drives now u p.car h

  history-Drives : (es : List (Event W)) (p : Program W) → Drives p.car → Drives (history es p).car
  unfolding history
  history-Drives [] p h = h
  history-Drives (e ∷ es) p h = history-Drives es (happen e p) (happen-Drives e p h)

  -- However the hardware was loaded, and whatever the steps of the control threads and of the user
  -- are and in whatever order they come: after each of them at most one of the wheels goes backward,
  -- so that the car never reverses, and neither is driven at more than 60 percent.
  pub never_reverses :
      (o : Loading) (es : List (Event W))
      → let p : Program W = record { car = (initialize_hardware o initial_car).0; threads = [] } in
        IsDriven 60 (history es p).car.motor_controller
  unfolding initial_car
  never_reverses o es = history-Drives es _ (loaded-Drives o initial_car tt)
