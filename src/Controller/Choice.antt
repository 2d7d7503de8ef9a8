-- ===== src/Controller/Choice.antt =====
-- What the controller chooses by the distance.
use adeept_awr.Common.{◌*◌, ◌/◌, ◌≤◌, ◌≡◌, true, false, Option, none, some, Float, of_ℕ, arith}
use adeept_awr.Controller.Line.{stop, LineCommand}
use adeept_awr.Controller.Distance.{normal, emergency, AvoidanceCommand}
use adeept_awr.Controller.Decision.{
  RobotCommand, line_sensor, is_urgent, make_decision, adjust_speed,
}

-- A command that follows the line, at most at the speed of the line sensor.
abbrev pub FollowsLine : LineCommand → RobotCommand → Type 0
FollowsLine line c =
    (c.source ≡ line_sensor)
    × (c.action ≡ line.action)
    × (c.priority ≡ normal)
    × (c.speed ≤ line.speed)

module _ {ℓ} {W : Type ℓ} ⦃f : Float W⦄ where
  -- What is said of the decision for a command of each sensor and a distance.
  abbrev pub DecisionIn : LineCommand → AvoidanceCommand W → Option W → Type ℓ
  DecisionIn line u distance =
      let c = make_decision line u distance in
      (distance ≡ none → (c.speed ≡ line.speed) × FollowsLine line c)
      × ((d : W)
          → distance ≡ some d
          → (f.lt d (of_ℕ 10) ≡ true → (c.action ≡ stop) × (c.priority ≡ emergency))
            × (f.lt d (of_ℕ 10) ≡ false
                → f.lt d (of_ℕ 20) ≡ true
                → is_urgent u.priority ≡ true
                → (c.action ≡ u.action) × (c.speed ≡ u.speed) × (c.priority ≡ u.priority))
            × (f.lt d (of_ℕ 10) ≡ false
                → f.lt d (of_ℕ 20) ≡ false
                → FollowsLine line c
                  × (f.lt d (of_ℕ 40) ≡ true → c.speed ≡ line.speed * 7 / 10)
                  × (f.lt d (of_ℕ 40) ≡ false
                      → f.lt d (of_ℕ 60) ≡ true
                      → c.speed ≡ line.speed * 85 / 100)
                  × (f.lt d (of_ℕ 40) ≡ false → f.lt d (of_ℕ 60) ≡ false → c.speed ≡ line.speed)))

  -- With no distance the line is followed at its full speed. From 60 cm on so too; from 40 to 60 cm
  -- it is followed at 85 percent of the speed, and from 20 to 40 cm at 70 percent. Below 20 cm the
  -- command of the distance sensor is obeyed where it is urgent, and below 10 cm the robot stops.
  pub decision_by_distance :
      (line : LineCommand) (u : AvoidanceCommand W) (distance : Option W)
      → DecisionIn line u distance
  unfolding make_decision adjust_speed
  decision_by_distance line u none = ground arith
  decision_by_distance line u (some d) = ground arith
