-- ===== src/Robot/Loop.antt =====
-- `main_autonomous_driving_loop` of simple_robot_main.py and the commands of its user.
use adeept_awr.Common.{Bool, true, false, List, [], ◌∷◌, Float, Result, ok, raise}
use adeept_awr.Motors.State.{SetupOutcome, stop_all_motors_immediately}
use adeept_awr.Robot.State.{
  Robot, handle_emergency_stop_signal, restart_robot_system,
  cleanup_all_robot_resources_before_exit,
}
use adeept_awr.Robot.Fusion.{CycleInput, FinalDecision, run_one_complete_control_cycle}

module _ {ℓ} {W : Type ℓ} ⦃f : Float W⦄ where
  unfoldable pub stop_motors : Robot W → Robot W
  stop_motors s = record s { motors = stop_all_motors_immediately s.motors }

  -- The loop goes on, or the exception stops the motors.
  abbrev pub after_cycle : Result FinalDecision → Robot W → Robot W → Robot W
  after_cycle (ok d) s rest = rest
  after_cycle (raise e) s rest = stop_motors s

  -- The `while` loop. The list is that of the cycles until the stop signal comes; a cycle that
  -- raises ends the loop before.
  unfoldable pub driving : List (CycleInput W) → Robot W → Robot W
  driving [] s = handle_emergency_stop_signal s
  driving (i ∷ is) s =
      let (s', r) = run_one_complete_control_cycle i s in
      let rest = driving is s' in after_cycle r s' rest

  abbrev pub drive_unless : Bool → List (CycleInput W) → Robot W → Robot W
  drive_unless true is s = s
  drive_unless false is s = driving is s

  unfoldable pub main_autonomous_driving_loop : List (CycleInput W) → Robot W → Robot W
  main_autonomous_driving_loop is s =
      let s' = record s { is_robot_running = true } in
      stop_motors (record (drive_unless s.should_stop_robot is s') { is_robot_running = false })

-- The commands of the user but those that only print, and the end of the program.
pub data UserCommand {ℓ} (W : Type ℓ) : Type ℓ where
  start_driving : List (CycleInput W) → UserCommand W
  restart_system : SetupOutcome → Bool → UserCommand W
  quit_program : UserCommand W

module _ {ℓ} {W : Type ℓ} ⦃f : Float W⦄ where
  abbrev pub obey : UserCommand W → Robot W → Robot W
  obey (start_driving is) s = main_autonomous_driving_loop is s
  obey (restart_system o u) s = (restart_robot_system o u s).0
  obey quit_program s = cleanup_all_robot_resources_before_exit s

  unfoldable pub session : List (UserCommand W) → Robot W → Robot W
  session [] s = s
  session (c ∷ cs) s = session cs (obey c s)
