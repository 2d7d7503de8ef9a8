-- ===== src/Robot/Mirror.antt =====
-- The wheels of a robot that sees the mirror image of the line.
use adeept_awr.Common.{ℕ, ◌≡◌, ◌≢◌, refl, sym, ◌∙◌, ap, true, Float}
use adeept_awr.Vocabulary.{
  DangerLevel, safe, caution, dangerous, very_dangerous, unknown, Action, stop_all_motors,
  move_straight_forward,
}
use adeept_awr.Motors.Drive.{Motion, still, wheels, meaning, execute-wheels}
use adeept_awr.Rotary.Decision.{Decision}
use adeept_awr.Rotary.Mirror.{mirror_action, mirror_decision, mirror_memory, mirror_sample}
use adeept_awr.Rotary.Symmetry.{NotTwiceBoth, command-mirror}
use adeept_awr.Robot.State.{Robot}
use adeept_awr.Robot.Fusion.{
  CycleInput, reduced, collect_all_sensor_data_and_analyze, execute_robot_control_command, complete,
  run_one_complete_control_cycle,
}
use adeept_awr.Robot.Cycle.{level_of, line_of, planned, cycle-planned}

abbrev pub swap : Motion × Motion → Motion × Motion
swap (l, r) = (r, l)

meaning-mirror : (a : Action) (v : ℕ) → meaning (mirror_action a) v ≡ swap (meaning a v)
meaning-mirror move_straight_forward v = refl
meaning-mirror _ v = refl

-- What the plan makes of the wheels, where it does not raise.
abbrev planned_wheels : DangerLevel → Decision → Motion × Motion
planned_wheels very_dangerous d = (still, still)
planned_wheels caution d = meaning d.action (reduced d.speed)
planned_wheels _ d = meaning d.action d.speed

planned_wheels-mirror :
    (p : DangerLevel) (d : Decision)
    → planned_wheels p (mirror_decision d) ≡ swap (planned_wheels p d)
planned_wheels-mirror very_dangerous d = refl
planned_wheels-mirror caution d = meaning-mirror d.action (reduced d.speed)
planned_wheels-mirror safe d = meaning-mirror d.action d.speed
planned_wheels-mirror dangerous d = meaning-mirror d.action d.speed
planned_wheels-mirror unknown d = meaning-mirror d.action d.speed

module _ {ℓ} {W : Type ℓ} ⦃f : Float W⦄ where
  abbrev pub mirror_input : CycleInput W → CycleInput W
  mirror_input i = record i { sample = mirror_sample i.sample }

  abbrev pub mirror_robot : Robot W → Robot W
  mirror_robot s = record s { line_memory = mirror_memory s.line_memory }

  complete-wheels :
      (p : DangerLevel) (d : Decision) (t : Robot W)
      → t.motors.are_motors_initialized ≡ true
      → p ≢ dangerous
      → wheels (complete (planned p d) t).0.motors ≡ planned_wheels p d
  unfolding complete execute_robot_control_command
  complete-wheels very_dangerous d t h n = execute-wheels stop_all_motors 0 t.motors h
  complete-wheels dangerous d t h n = elim (n refl) [ ]
  complete-wheels caution d t h n = execute-wheels d.action (reduced d.speed) t.motors h
  complete-wheels safe d t h n = execute-wheels d.action d.speed t.motors h
  complete-wheels unknown d t h n = execute-wheels d.action d.speed t.motors h

  cycle-planned_wheels :
      (i : CycleInput W) (s : Robot W)
      → s.motors.are_motors_initialized ≡ true
      → level_of i s ≢ dangerous
      → wheels (run_one_complete_control_cycle i s).0.motors
        ≡ planned_wheels (level_of i s) (line_of i s)
  unfolding collect_all_sensor_data_and_analyze
  cycle-planned_wheels i s h n =
      rw (cycle-planned i s) (
        complete-wheels (level_of i s) (line_of i s) (collect_all_sensor_data_and_analyze i s).0 h
          n)

  -- From the line sensors to the wheels: a robot whose line memory and line sensors are mirrored,
  -- left for right, turns each wheel as the other one turns else, unless a `dangerous` obstacle is
  -- seen. The law asked of the numbers is that of the line tracking.
  pub wheels-mirror :
      NotTwiceBoth f
      → (i : CycleInput W) (s : Robot W) → s.motors.are_motors_initialized ≡ true
      → level_of i s ≢ dangerous
      → wheels (run_one_complete_control_cycle (mirror_input i) (mirror_robot s)).0.motors
        ≡ swap (wheels (run_one_complete_control_cycle i s).0.motors)
  unfolding collect_all_sensor_data_and_analyze
  wheels-mirror law i s h n =
      cycle-planned_wheels (mirror_input i) (mirror_robot s) h n
      ∙ ap (λ d. planned_wheels (level_of i s) (d.1.decision))
          (command-mirror law i.sample s.line_memory)
      ∙ planned_wheels-mirror (level_of i s) (line_of i s)
      ∙ ap swap (sym (cycle-planned_wheels i s h n))
