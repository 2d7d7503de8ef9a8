-- ===== src/MainProgram/Commands.antt =====
-- The commands of the user of main.py. A command is its words; what `int` and `float` make of a
-- word, where they do not raise, is with it. Printing is left out.
use adeept_awr.Common.{
  ℕ, Option, none, some, List, [], ◌∷◌, Float, of_ℕ, get_elem?, set_elem, ℤ, pos, neg,
}
use adeept_awr.Hardware.{Servos, set_servo_angle, center_servo, sweep_servo}
use adeept_awr.MainProgram.State.{
  RobotMode, idle_mode, manual, line_following_mode, obstacle_avoidance_mode, auto_navigation,
  Thread, AutonomousRobot, start_robot, stop_robot, signal_handler, set_mode, cleanup,
}
use adeept_awr.MainProgram.Modes.{Input, set_speeds, control_loop_step}

pub data Key : Type 0 where
  key_q key_1 key_2 key_3 key_4 key_s key_w key_a key_d key_space : Key
  key_servo key_center key_sweep key_other : Key

pub record Word {ℓ} (W : Type ℓ) : Type ℓ where
  pub key : Key
  pub as_int : Option ℤ
  pub as_float : Option W

module _ {ℓ} {W : Type ℓ} where
  unfoldable pub move_forward : ℤ → AutonomousRobot W → AutonomousRobot W
  move_forward speed s = set_speeds speed speed s

  unfoldable pub move_backward : ℤ → AutonomousRobot W → AutonomousRobot W
  move_backward speed s = set_speeds (neg speed) (neg speed) s

  unfoldable pub turn_left : ℤ → AutonomousRobot W → AutonomousRobot W
  turn_left speed s = set_speeds speed (neg speed) s

  unfoldable pub turn_right : ℤ → AutonomousRobot W → AutonomousRobot W
  turn_right speed s = set_speeds (neg speed) speed s

  abbrev pub with_servos : (Servos W → Servos W) → AutonomousRobot W → AutonomousRobot W
  with_servos g s = record s { servo_controller = apply s.servo_controller }
    where
      apply : Option (Servos W) → Option (Servos W)
      apply none = none
      apply (some v) = some (g v)

  -- The mode, and then the start of the robot.
  abbrev pub drive_in : RobotMode → AutonomousRobot W → AutonomousRobot W
  drive_in mode s = start_robot (set_mode mode s)

module _ {ℓ} {W : Type ℓ} ⦃f : Float W⦄ where
  abbrev pub servo_to : (W → ℕ) → Option ℤ → Option W → AutonomousRobot W → AutonomousRobot W
  servo_to int (some channel) (some angle) s = with_servos (set_servo_angle int channel angle) s
  servo_to int _ _ s = s

  abbrev pub center_to : (W → ℕ) → Option ℤ → AutonomousRobot W → AutonomousRobot W
  center_to int (some channel) s = with_servos (center_servo int channel) s
  center_to int none s = s

  -- A sweep from 0 to 180 degrees and back, of 20 steps each way.
  abbrev pub sweep_to : (W → ℕ) → Option ℤ → AutonomousRobot W → AutonomousRobot W
  sweep_to int (some channel) s = with_servos (sweep_servo int channel (of_ℕ 0) (of_ℕ 180) 20 1) s
  sweep_to int none s = s

  abbrev pub servo_words : (W → ℕ) → List (Word W) → AutonomousRobot W → AutonomousRobot W
  servo_words int (a ∷ b ∷ []) s = servo_to int a.as_int b.as_float s
  servo_words int _ s = s

  abbrev pub center_words : (W → ℕ) → List (Word W) → AutonomousRobot W → AutonomousRobot W
  center_words int (a ∷ []) s = center_to int a.as_int s
  center_words int _ s = s

  abbrev pub sweep_words : (W → ℕ) → List (Word W) → AutonomousRobot W → AutonomousRobot W
  sweep_words int (a ∷ []) s = sweep_to int a.as_int s
  sweep_words int _ s = s

  -- The test of `s` for the sensors comes before the one for the way back.
  abbrev pub obey : (W → ℕ) → Key → List (Word W) → AutonomousRobot W → AutonomousRobot W
  obey int key_q ws s = s
  obey int key_1 ws s = drive_in line_following_mode s
  obey int key_2 ws s = drive_in obstacle_avoidance_mode s
  obey int key_3 ws s = drive_in auto_navigation s
  obey int key_4 ws s = stop_robot (set_mode manual s)
  obey int key_s ws s = s
  obey int key_w ws s = move_forward (pos 50) s
  obey int key_a ws s = turn_left (pos 50) s
  obey int key_d ws s = turn_right (pos 50) s
  obey int key_space ws s = set_mode idle_mode (stop_robot s)
  obey int key_servo ws s = servo_words int ws s
  obey int key_center ws s = center_words int ws s
  obey int key_sweep ws s = sweep_words int ws s
  obey int key_other ws s = s

  -- One command of `interactive_mode` that does not end it.
  unfoldable pub interactive_command :
      (W → ℕ) → List (Word W) → AutonomousRobot W → AutonomousRobot W
  interactive_command int [] s = s
  interactive_command int (w ∷ ws) s = obey int w.key ws s

pub data Event {ℓ} (W : Type ℓ) : Type ℓ where
  command : List (Word W) → Event W
  -- Ctrl+C, or the end of the program
  signal quit : Event W
  thread : ℕ → Input W → Event W

module _ {ℓ} {W : Type ℓ} ⦃f : Float W⦄ where
  abbrev pub thread_at : ℕ → Input W → Option Thread → AutonomousRobot W → AutonomousRobot W
  thread_at k i none s = s
  thread_at k i (some t) s =
      let (s', t') = control_loop_step i t s in record s' { threads = set_elem s'.threads k t' }

  unfoldable pub happen : (W → ℕ) → Event W → AutonomousRobot W → AutonomousRobot W
  happen int (command ws) s = interactive_command int ws s
  happen int signal s = cleanup (signal_handler s)
  happen int quit s = cleanup s
  happen int (thread k i) s = thread_at k i (get_elem? s.threads k) s

  unfoldable pub history : (W → ℕ) → List (Event W) → AutonomousRobot W → AutonomousRobot W
  history int [] s = s
  history int (e ∷ es) s = history int es (happen int e s)
