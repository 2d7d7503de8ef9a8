-- ===== src/FunctionalCar/Phases.antt =====
-- The avoidance as an abstract machine of four phases with a timer, which the globals refine.
use native.Mathlib.Nat.{zero-add, suc-add}
use adeept_awr.Common.{
  ℕ, zero, suc, ◌+◌, ◌≡◌, refl, Bool, true, false, Option, none, some, Float, of_ℕ, arith, ℤ,
  if◌then◌else◌, ◌∙◌, ap,
}
use adeept_awr.FunctionalCar.State.{
  Car, Input, initial_car, read_line_sensor_data, measure_ultrasonic_distance,
}
use adeept_awr.FunctionalCar.Turns.{
  stop_motors, set_motor_speeds, drive_forward, execute_left_turn, execute_right_turn,
  execute_left_turn_with_intensity, execute_right_turn_with_intensity, search_line_by_rotation,
}
use adeept_awr.FunctionalCar.Stages.{
  evaluate_obstacle_danger_level, execute_avoidance_stage1_left_turn,
  execute_avoidance_stage2_forward, execute_avoidance_stage3_right_turn, start_obstacle_avoidance,
  process_stage_1, process_stage_2, process_stage_3, process_avoidance_stages,
}
use adeept_awr.FunctionalCar.Following.{
  execute_line_following_drive, handle_line_lost_situation, execute_line_following_control_logic,
}
use adeept_awr.FunctionalCar.Cycle.{
  AvoidanceStatus, safe_status, drive_after, execute_obstacle_avoidance_control_logic,
  execute_integrated_driving_control,
}

abbrev pub later {ℓ} : {A : Type ℓ} → ℕ → (ℕ → A) → ℕ → A
later zero is = is
later (suc m) is = later m (λ k. is (suc k))

pub data Phase : Type 0 where
  following turning_left going_ahead turning_right : Phase

module _ {ℓ} {W : Type ℓ} ⦃f : Float W⦄ where
  -- How long the timer has run is at least the duration.
  abbrev pub is_over : W → W → W → Bool
  is_over duration now start = f.le duration (f.sub now start)

  -- One round of the abstract machine, for the distance and the clock.
  abbrev pub tick : W → W → Phase × W → Phase × W
  tick d now (following, t) = if f.le d (of_ℕ 20) then (turning_left, now) else (following, t)
  tick d now (turning_left, t) =
      if is_over (f.lit 8 10) now t then (going_ahead, now) else (turning_left, t)
  tick d now (going_ahead, t) =
      if is_over (f.lit 12 10) now t then (turning_right, now) else (going_ahead, t)
  tick d now (turning_right, t) =
      if is_over (f.lit 8 10) now t then (following, t) else (turning_right, t)

abbrev pub is_active : Phase → Bool
is_active following = false
is_active _ = true

abbrev pub stage_of : Phase → ℕ
stage_of following = 0
stage_of turning_left = 1
stage_of going_ahead = 2
stage_of turning_right = 3

module _ {ℓ} {W : Type ℓ} where
  -- The globals that hold a state of the machine.
  pub record Represents (ultrasonic : Bool) (a : Phase × W) (s : Car W) : Type ℓ where
    pub sensor : s.ultrasonic_sensor ≡ ultrasonic
    pub active : s.obstacle_avoidance_active ≡ is_active a.0
    pub stage : s.avoidance_stage ≡ stage_of a.0
    pub timer : s.avoidance_start_time ≡ a.1

  -- What the motors and the line following do not touch.
  pub record Kept (s t : Car W) : Type ℓ where
    pub sensor : t.ultrasonic_sensor ≡ s.ultrasonic_sensor
    pub active : t.obstacle_avoidance_active ≡ s.obstacle_avoidance_active
    pub stage : t.avoidance_stage ≡ s.avoidance_stage
    pub timer : t.avoidance_start_time ≡ s.avoidance_start_time
    pub running : t.is_running ≡ s.is_running

  pub drive-Kept : (p : ℤ) (s : Car W) → Kept s (execute_line_following_drive p s)
  unfolding execute_line_following_drive drive_forward set_motor_speeds execute_left_turn
      execute_right_turn execute_left_turn_with_intensity execute_right_turn_with_intensity
  drive-Kept p s = ground arith

  pub follow-Kept : (o : Option ℤ) (s : Car W) → Kept s (execute_line_following_control_logic o s)
  unfolding execute_line_following_control_logic handle_line_lost_situation stop_motors
      search_line_by_rotation set_motor_speeds
  follow-Kept none s = ground arith
  follow-Kept (some p) s =
      let h = drive-Kept p (record s { line_lost_counter = 0; last_line_position = p }) in
      record {
        sensor = h.sensor;
        active = h.active;
        stage = h.stage;
        timer = h.timer;
        running = h.running;
      }

  after-Kept : (a : AvoidanceStatus) (i : Input W) (s : Car W) → Kept s (drive_after a i s)
  after-Kept safe_status i s = follow-Kept (read_line_sensor_data i s) s
  after-Kept _ i s = record {
    sensor = refl;
    active = refl;
    stage = refl;
    timer = refl;
    running = refl;
  }

  Kept-Represents :
      (u : Bool) (a : Phase × W) (s t : Car W) → Represents u a s → Kept s t → Represents u a t
  Kept-Represents u a s t h k = record {
    sensor = k.sensor ∙ h.sensor;
    active = k.active ∙ h.active;
    stage = k.stage ∙ h.stage;
    timer = k.timer ∙ h.timer;
  }

module _ {ℓ} {W : Type ℓ} ⦃f : Float W⦄ where
  avoid-Represents :
      (u : Bool) (a : Phase × W) (d now : W) (s : Car W)
      → Represents u a s
      → Represents u (tick d now a) (execute_obstacle_avoidance_control_logic d now s).0
  unfolding execute_obstacle_avoidance_control_logic evaluate_obstacle_danger_level
      start_obstacle_avoidance process_avoidance_stages process_stage_1 process_stage_2
      process_stage_3 execute_avoidance_stage1_left_turn execute_avoidance_stage2_forward
      execute_avoidance_stage3_right_turn set_motor_speeds drive_forward
  avoid-Represents u (following, t) d now s h = ground arith
  avoid-Represents u (turning_left, t) d now s h = ground arith
  avoid-Represents u (going_ahead, t) d now s h = ground arith
  avoid-Represents u (turning_right, t) d now s h = ground arith

  cycle-Represents :
      (u : Bool) (a : Phase × W) (i : Input W) (s : Car W)
      → Represents u a s
      → Represents u
          (tick (measure_ultrasonic_distance i s) i.now a)
          (execute_integrated_driving_control i s)
  unfolding execute_integrated_driving_control
  cycle-Represents u a i s h =
      let d = measure_ultrasonic_distance i s in
      let r = execute_obstacle_avoidance_control_logic d i.now s in
      Kept-Represents u (tick d i.now a) r.0 _ (avoid-Represents u a d i.now s h)
        (after-Kept r.1 i r.0)

  avoid-running :
      (d now : W) (s : Car W)
      → (execute_obstacle_avoidance_control_logic d now s).0.is_running ≡ s.is_running
  unfolding execute_obstacle_avoidance_control_logic evaluate_obstacle_danger_level
      start_obstacle_avoidance process_avoidance_stages process_stage_1 process_stage_2
      process_stage_3 execute_avoidance_stage1_left_turn execute_avoidance_stage2_forward
      execute_avoidance_stage3_right_turn set_motor_speeds drive_forward
  avoid-running d now s = ground arith

  -- A round does not decide whether the loop goes on.
  pub cycle-running :
      (i : Input W) (s : Car W) → (execute_integrated_driving_control i s).is_running ≡ s.is_running
  unfolding execute_integrated_driving_control
  cycle-running i s =
      let d = measure_ultrasonic_distance i s in
      let r = execute_obstacle_avoidance_control_logic d i.now s in
      let k = after-Kept r.1 i r.0 in k.running ∙ avoid-running d i.now s

  -- `n` rounds of the control loop, which nothing else comes between.
  abbrev pub rounds : ℕ → (ℕ → Input W) → Car W → Car W
  rounds zero is s = s
  rounds (suc n) is s = rounds n (λ k. is (suc k)) (execute_integrated_driving_control (is 0) s)

  -- The distance that a car measures, with an ultrasonic sensor or without.
  abbrev pub distance_seen : Bool → Input W → W
  distance_seen u i = measure_ultrasonic_distance i (record initial_car { ultrasonic_sensor = u })

  -- `n` rounds of the abstract machine.
  abbrev pub ticks : Bool → ℕ → (ℕ → Input W) → Phase × W → Phase × W
  ticks u zero is a = a
  ticks u (suc n) is a = ticks u n (λ k. is (suc k)) (tick (distance_seen u (is 0)) (is 0).now a)

  distance-seen :
      (i : Input W) (s : Car W)
      → measure_ultrasonic_distance i s ≡ distance_seen s.ultrasonic_sensor i
  unfolding measure_ultrasonic_distance
  distance-seen i s = refl

  -- The control loop refines the abstract machine: whatever the sensors show in its rounds, the
  -- globals of the avoidance stand for the phase and the timer that the machine has after the same
  -- distances at the same times; the line following and the motors have no part in it.
  pub rounds-Represents :
      (n : ℕ) (u : Bool) (is : ℕ → Input W) (a : Phase × W) (s : Car W)
      → Represents u a s
      → Represents u (ticks u n is a) (rounds n is s)
  rounds-Represents zero u is a s h = h
  rounds-Represents (suc n) u is a s h =
      let i = is 0 in
      let seen : measure_ultrasonic_distance i s ≡ distance_seen u i =
        distance-seen i s ∙ ap (λ (b : Bool). distance_seen b i) h.sensor in
      let step = rw seen at (cycle-Represents u a i s h) in
      rounds-Represents n u (λ k. is (suc k)) (tick (distance_seen u i) i.now a)
        (execute_integrated_driving_control i s) step

  -- Rounds after other rounds.
  pub ticks-add :
      (u : Bool) (m n : ℕ) (is : ℕ → Input W) (a : Phase × W)
      → ticks u n (later m is) (ticks u m is a) ≡ ticks u (m + n) is a
  ticks-add u zero n is a = rw zero-add
  ticks-add u (suc m) n is a =
      rw suc-add (ticks-add u m n (λ k. is (suc k)) (tick (distance_seen u (is 0)) (is 0).now a))
