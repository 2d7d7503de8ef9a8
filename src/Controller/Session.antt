-- ===== src/Controller/Session.antt =====
-- The start of all components, their cleanup, and the program around the controller in
-- autonomous_controller.py. Printing the status is left out.
use adeept_awr.Common.{Bool, true, false, ◌&&◌, Option, List, [], ◌∷◌, Float, if◌then◌else◌}
use adeept_awr.Motors.State.{SetupOutcome}
use adeept_awr.Controller.Line
use adeept_awr.Controller.Rotary.{Analyzer}
use adeept_awr.Controller.Distance
use adeept_awr.Controller.Drivers
use adeept_awr.Controller.Operations.{
  AutonomousController, line_following_mode, idle, Event, start, emergency_requested,
  stop_requested, stop_finished, history,
}

-- What works at the start: the pins of the sensors, those of the motors, the LED strip, and the rotary
-- sensor, which is none where it could not be made.
pub record Hardware {ℓ} (W : Type ℓ) : Type ℓ where
  pub line_works : Bool
  pub ultrasonic_works : Bool
  pub motors_work : SetupOutcome
  pub led_works : Bool
  pub rotary_sensor : Option (Analyzer W)

-- What the user types, or the signal of an interrupt, and what the threads do meanwhile.
pub data Command {ℓ} (W : Type ℓ) : Type ℓ where
  types_s types_e types_q interrupts : Command W
  meanwhile : Event W → Command W

module _ {ℓ} {W : Type ℓ} ⦃f : Float W⦄ where
  -- All four are tried, also after one has failed.
  unfoldable pub initialize_all_components :
      Hardware W → AutonomousController W → AutonomousController W × Bool
  initialize_all_components h s =
      let (l, line_ready) = Line.initialize_gpio h.line_works s.line in
      let (d, distance_ready) = Distance.initialize_gpio h.ultrasonic_works s.distance in
      let (m, motors_ready) = Drivers.initialize_gpio h.motors_work s.motors in
      let s' = record s { line = l; distance = d; motors = m } in
      if line_ready && (distance_ready && (motors_ready && h.led_works))
      then (record s' { enhanced_line_sensor = h.rotary_sensor; led = idle }, true)
      else (s', false)

  -- The end of `cleanup`.
  unfoldable pub release : AutonomousController W → AutonomousController W
  release s = record s {
    motors = Drivers.cleanup s.motors;
    line = Line.cleanup s.line;
    distance = Distance.cleanup s.distance;
  }

  -- The events are those of the threads while the stop waits for the last one.
  unfoldable pub cleanup : List (Event W) → AutonomousController W → AutonomousController W
  unfolding release
  cleanup waiting s =
      release (history (stop_finished ∷ []) (history waiting (history (stop_requested ∷ []) s)))

  -- The loop of `main`, up to its end. A signal is an emergency stop, and ends it.
  unfoldable pub obey_commands : List (Command W) → AutonomousController W → AutonomousController W
  obey_commands [] s = s
  obey_commands (types_s ∷ cs) s = obey_commands cs (history (start line_following_mode ∷ []) s)
  obey_commands (types_e ∷ cs) s = obey_commands cs (history (emergency_requested ∷ []) s)
  obey_commands (types_q ∷ cs) s = s
  obey_commands (interrupts ∷ cs) s = history (emergency_requested ∷ []) s
  obey_commands (meanwhile e ∷ cs) s = obey_commands cs (history (e ∷ []) s)

  abbrev pub run_if : Bool → List (Command W) → AutonomousController W → AutonomousController W
  run_if true cs s = obey_commands cs s
  run_if false cs s = s

  -- The cleanup comes also where a component failed at the start.
  unfoldable pub main :
      Hardware W
      → List (Command W)
      → List (Event W)
      → AutonomousController W
      → AutonomousController W
  unfolding initialize_all_components cleanup obey_commands
  main h cs waiting s =
      let (s', ready) = initialize_all_components h s in cleanup waiting (run_if ready cs s')
