-- ===== src/FunctionalCar/Twins.antt =====
-- The two functional cars against each other.
use adeept_awr.Common.{◌≡◌, refl, sym, ◌∙◌, ap, Option, none, some, Float, arith, List, [], ◌∷◌, ℤ}
use adeept_awr.FunctionalCar.State.{Car, Input, read_line_sensor_data, measure_ultrasonic_distance}
use adeept_awr.FunctionalCar.Turns.{
  stop_motors, set_motor_speeds, drive_forward, execute_left_turn, execute_right_turn,
  execute_left_turn_with_intensity, execute_right_turn_with_intensity, search_line_by_rotation,
}
use adeept_awr.FunctionalCar.Stages.{
  evaluate_obstacle_danger_level, execute_avoidance_stage1_left_turn,
  execute_avoidance_stage2_forward, execute_avoidance_stage3_right_turn, start_obstacle_avoidance,
  process_stage_1, process_stage_2, process_stage_3, process_avoidance_stages,
}
use adeept_awr.FunctionalCar.Following.{
  execute_line_following_drive, handle_line_lost_situation, execute_line_following_control_logic,
}
use adeept_awr.FunctionalCar.Cycle.{
  AvoidanceStatus, safe_status, drive_after, execute_obstacle_avoidance_control_logic,
  execute_integrated_driving_control,
}
use adeept_awr.FunctionalCar.English

module _ {ℓ} {W : Type ℓ} where
  -- A car without what its motors do.
  abbrev pub forget_motors : Car W → Car W
  forget_motors s = record s { motor_controller = none }

  -- An operation does to the rest of the car the same whatever the motors do.
  drive-forget :
      (p : ℤ) (s : Car W)
      → execute_line_following_drive p (forget_motors s)
        ≡ forget_motors (execute_line_following_drive p s)
  unfolding execute_line_following_drive drive_forward set_motor_speeds execute_left_turn
      execute_right_turn execute_left_turn_with_intensity execute_right_turn_with_intensity
  drive-forget p s = ground arith

  english_drive-forget :
      (p : ℤ) (s : Car W)
      → English.execute_line_following_drive p (forget_motors s)
        ≡ forget_motors (English.execute_line_following_drive p s)
  unfolding English.execute_line_following_drive drive_forward set_motor_speeds execute_left_turn
      execute_right_turn
  english_drive-forget p s = ground arith

  same-drive :
      (p : ℤ) (s : Car W)
      → English.execute_line_following_drive p (forget_motors s)
        ≡ execute_line_following_drive p (forget_motors s)
  unfolding English.execute_line_following_drive execute_line_following_drive drive_forward
      set_motor_speeds execute_left_turn execute_right_turn execute_left_turn_with_intensity
      execute_right_turn_with_intensity
  same-drive p s = ground arith

  lost-forget :
      (s : Car W)
      → handle_line_lost_situation (forget_motors s) ≡ forget_motors (handle_line_lost_situation s)
  unfolding handle_line_lost_situation stop_motors search_line_by_rotation set_motor_speeds
  lost-forget s = ground arith

  follow-forget :
      (o : Option ℤ) (s : Car W)
      → execute_line_following_control_logic o (forget_motors s)
        ≡ forget_motors (execute_line_following_control_logic o s)
  unfolding execute_line_following_control_logic
  follow-forget none s = lost-forget s
  follow-forget (some p) s =
      drive-forget p (record s { line_lost_counter = 0; last_line_position = p })

  english_follow-forget :
      (o : Option ℤ) (s : Car W)
      → English.execute_line_following_control_logic o (forget_motors s)
        ≡ forget_motors (English.execute_line_following_control_logic o s)
  unfolding English.execute_line_following_control_logic
  english_follow-forget none s = lost-forget s
  english_follow-forget (some p) s =
      english_drive-forget p (record s { line_lost_counter = 0; last_line_position = p })

  same-follow :
      (o : Option ℤ) (s : Car W)
      → English.execute_line_following_control_logic o (forget_motors s)
        ≡ execute_line_following_control_logic o (forget_motors s)
  unfolding English.execute_line_following_control_logic execute_line_following_control_logic
  same-follow none s = refl
  same-follow (some p) s = same-drive p (record s { line_lost_counter = 0; last_line_position = p })

  after-forget :
      (a : AvoidanceStatus) (i : Input W) (s : Car W)
      → drive_after a i (forget_motors s) ≡ forget_motors (drive_after a i s)
  unfolding read_line_sensor_data
  after-forget safe_status i s = follow-forget (read_line_sensor_data i s) s
  after-forget _ i s = refl

  english_after-forget :
      (a : AvoidanceStatus) (i : Input W) (s : Car W)
      → English.drive_after a i (forget_motors s) ≡ forget_motors (English.drive_after a i s)
  unfolding read_line_sensor_data
  english_after-forget safe_status i s = english_follow-forget (read_line_sensor_data i s) s
  english_after-forget _ i s = refl

  same-after :
      (a : AvoidanceStatus) (i : Input W) (s : Car W)
      → English.drive_after a i (forget_motors s) ≡ drive_after a i (forget_motors s)
  unfolding read_line_sensor_data
  same-after safe_status i s = same-follow (read_line_sensor_data i s) s
  same-after _ i s = refl

module _ {ℓ} {W : Type ℓ} ⦃f : Float W⦄ where
  avoid-forget :
      (d now : W) (s : Car W)
      → let (t, status) = execute_obstacle_avoidance_control_logic d now s in
        execute_obstacle_avoidance_control_logic d now (forget_motors s) ≡ (forget_motors t, status)
  unfolding execute_obstacle_avoidance_control_logic evaluate_obstacle_danger_level
      start_obstacle_avoidance process_avoidance_stages process_stage_1 process_stage_2
      process_stage_3 execute_avoidance_stage1_left_turn execute_avoidance_stage2_forward
      execute_avoidance_stage3_right_turn set_motor_speeds drive_forward
  avoid-forget d now s = ground arith

  round-forget :
      (i : Input W) (s : Car W)
      → execute_integrated_driving_control i (forget_motors s)
        ≡ forget_motors (execute_integrated_driving_control i s)
  unfolding execute_integrated_driving_control measure_ultrasonic_distance
  round-forget i s =
      let d = measure_ultrasonic_distance i s in
      let (t, status) = execute_obstacle_avoidance_control_logic d i.now s in
      ap (λ (r : Car W × AvoidanceStatus). drive_after r.1 i r.0) (avoid-forget d i.now s)
      ∙ after-forget status i t

  -- One round of the English car, against one of a functional car that differs in its motors at most.
  same-round :
      (i : Input W) (s t : Car W)
      → forget_motors s ≡ forget_motors t
      → forget_motors (English.execute_integrated_driving_control i s)
        ≡ forget_motors (execute_integrated_driving_control i t)
  unfolding English.execute_integrated_driving_control execute_integrated_driving_control
  same-round i s t h =
      let (u, status) =
        execute_obstacle_avoidance_control_logic (measure_ultrasonic_distance i s) i.now s in
      let twin : forget_motors (English.drive_after status i u)
          ≡ forget_motors (drive_after status i u) =
        sym (english_after-forget status i u) ∙ (same-after status i u ∙ after-forget status i u) in
      twin
      ∙ (sym (round-forget i s)
          ∙ (ap (λ (c : Car W). execute_integrated_driving_control i c) h ∙ round-forget i t))

  -- The rounds of each of the cars.
  unfoldable pub rounds : List (Input W) → Car W → Car W
  rounds [] s = s
  rounds (i ∷ is) s = rounds is (execute_integrated_driving_control i s)

  unfoldable pub english_rounds : List (Input W) → Car W → Car W
  english_rounds [] s = s
  english_rounds (i ∷ is) s = english_rounds is (English.execute_integrated_driving_control i s)

  -- Whatever the sensors show in any rounds, from cars that differ in their motors at most: the two
  -- versions of the functional car keep all their globals the same, those of the avoidance, of the
  -- line and of the statistics, and differ only in what their motors were told.
  pub twins_agree :
      (is : List (Input W)) (s t : Car W)
      → forget_motors s ≡ forget_motors t
      → forget_motors (english_rounds is s) ≡ forget_motors (rounds is t)
  unfolding rounds english_rounds
  twins_agree [] s t h = h
  twins_agree (i ∷ is) s t h = twins_agree is _ _ (same-round i s t h)
