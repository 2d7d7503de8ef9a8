-- ===== src/Controller/Decision.antt =====
-- The decision of `AutonomousController` in autonomous_controller.py. Confidences are in tenths; a
-- speed times 0.7 or 0.85 is rounded down as whole numbers, which agrees with `int` for every speed
-- from 0 to 100 but 90 times 0.7, and no command has that speed.
use adeept_awr.Common.{
  ℕ, ◌*◌, ◌/◌, Bool, true, false, ◌&&◌, Option, none, some, Float, of_ℕ, if◌then◌else◌,
}
use adeept_awr.Controller.Line.{DriveAction, stop, LineCommand}
use adeept_awr.Controller.Distance.{CommandPriority, normal, high, emergency, AvoidanceCommand}

pub data Source : Type 0 where
  line_sensor ultrasonic : Source

pub record RobotCommand : Type 0 where
  pub action : DriveAction
  pub speed : ℕ
  pub priority : CommandPriority
  pub source : Source
  pub confidence_tenths : ℕ

abbrev pub is_urgent : CommandPriority → Bool
is_urgent high = true
is_urgent emergency = true
is_urgent _ = false

abbrev pub halt : RobotCommand
halt = record {
  action = stop;
  speed = 0;
  priority = emergency;
  source = ultrasonic;
  confidence_tenths = 10;
}

abbrev pub follow : LineCommand → ℕ → RobotCommand
follow line v = record {
  action = line.action;
  speed = v;
  priority = normal;
  source = line_sensor;
  confidence_tenths = line.confidence_tenths;
}

module _ {ℓ} {W : Type ℓ} where
  abbrev pub obey_ultrasonic : AvoidanceCommand W → RobotCommand
  obey_ultrasonic u = record {
    action = u.action;
    speed = u.speed;
    priority = u.priority;
    source = ultrasonic;
    confidence_tenths = 9;
  }

module _ {ℓ} {W : Type ℓ} ⦃f : Float W⦄ where
  unfoldable pub adjust_speed : W → ℕ → ℕ
  adjust_speed d v =
      if f.lt d (of_ℕ 40) then v * 7 / 10 else if f.lt d (of_ℕ 60) then v * 85 / 100 else v

  -- `_make_decision`
  unfoldable pub make_decision : LineCommand → AvoidanceCommand W → Option W → RobotCommand
  unfolding adjust_speed
  make_decision line u none = follow line line.speed
  make_decision line u (some d) =
      if f.lt d (of_ℕ 10)
      then halt
      else if f.lt d (of_ℕ 20) && is_urgent u.priority
      then obey_ultrasonic u
      else follow line (adjust_speed d line.speed)
