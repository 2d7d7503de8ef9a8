-- ===== src/MainProgram/Navigation.antt =====
-- What the robot does for a reading of the line, and for two measurements of the distance.
use adeept_awr.Common.{
  ◌≡◌, Bool, true, false, Option, none, some, Float, of_ℕ, gives, ℤ, pos, negsuc, clamp_percent,
}
use adeept_awr.Hardware.{
  Gear, Levels, get_line_position, pattern_of, position_map, set_motor_speed, wheel, wheel-pins_for,
  each_levels,
}
use adeept_awr.MainProgram.State.{
  RobotState, moving, line_following, lost, AutonomousRobot, set_state_color,
}
use adeept_awr.MainProgram.Modes.{
  Input, set_speeds, search_line, follow, has_motors, line_following_mode_round,
  obstacle_avoidance_mode_round, is_near, auto_navigation_mode_round,
}

-- The speeds of the right and of the left wheel for a reading of the line, and the LED.
abbrev pub line_table : Bool → Bool → Bool → (ℤ × ℤ) × RobotState
line_table false false false = ((negsuc 29, pos 30), lost)
line_table true false true = ((negsuc 29, pos 30), lost)
line_table false true false = ((pos 40, pos 40), line_following)
line_table true true true = ((pos 40, pos 40), line_following)
line_table true true false = ((pos 55, pos 25), line_following)
line_table true false false = ((pos 70, pos 10), line_following)
line_table false true true = ((pos 25, pos 55), line_following)
line_table false false true = ((pos 10, pos 70), line_following)

-- What a robot with motors and a LED strip shows.
abbrev pub wheels_of : Option Gear → Option (ℤ × ℤ)
wheels_of none = none
wheels_of (some g) = some (wheel g.motor_a, wheel g.motor_b)

module _ {ℓ} {W : Type ℓ} where
  -- The wheels and the LED of the robot.
  pub record Shows (r : (ℤ × ℤ) × RobotState) (s : AutonomousRobot W) : Type 0 where
    pub wheels : wheels_of s.motor_controller ≡ some r.0
    pub led : s.led_controller ≡ some r.1

  shown :
      (r l : ℤ) (c : RobotState) (s : AutonomousRobot W) (g : Gear) (d : RobotState)
      → s.motor_controller ≡ some g
      → s.led_controller ≡ some d
      → Shows ((clamp_percent r, clamp_percent l), c) (set_speeds r l (set_state_color c s))
  unfolding set_motor_speed
  shown r l c s g d m e = record {
    wheels = rw m (rw (wheel-pins_for (clamp_percent r), wheel-pins_for (clamp_percent l)));
    led = rw e;
  }

  follow-Shows :
      (l : Levels) (s : AutonomousRobot W) (g : Gear) (c : RobotState)
      → s.motor_controller ≡ some g
      → s.led_controller ≡ some c
      → Shows (line_table l.left l.middle l.right) (follow (get_line_position l) s)
  unfolding get_line_position pattern_of position_map search_line
  follow-Shows l s g c m d =
      each_levels (λ t. Shows (line_table t.left t.middle t.right) (follow (get_line_position t) s))
        (shown _ _ lost s g c m d) (shown _ _ line_following s g c m d)
        (shown _ _ line_following s g c m d) (shown _ _ line_following s g c m d)
        (shown _ _ line_following s g c m d) (shown _ _ lost s g c m d)
        (shown _ _ line_following s g c m d) (shown _ _ line_following s g c m d) l

  -- A round of line following, for each of the eight readings of the line, on a robot with its
  -- hardware: the speeds of both wheels and the LED are those of an independent table. A line on the
  -- left makes the right wheel the faster one, and a lost line makes the robot spin to the right.
  pub line_round-Shows :
      (i : Input W) (l : Levels) (s : AutonomousRobot W) (g : Gear) (c : RobotState)
      → i.levels ≡ gives l
      → s.line_sensor ≡ true
      → s.motor_controller ≡ some g
      → s.led_controller ≡ some c
      → (t : AutonomousRobot W) × ((line_following_mode_round i s ≡ gives t)
          × Shows (line_table l.left l.middle l.right) t)
  unfolding line_following_mode_round
  line_round-Shows i l s g c e n m d = (
    follow (get_line_position l) s,
    (rw (n, (let motors : has_motors s ≡ true = rw m in motors), e), follow-Shows l s g c m d),
  )

module _ {ℓ} {W : Type ℓ} ⦃f : Float W⦄ where
  -- Where the first measurement of a round of automatic navigation shows an obstacle nearer than
  -- 30 cm, and the second one fails, the robot takes the distance for 999 cm, which is not below 40:
  -- it drives ahead, both wheels at 50 percent.
  pub failed_echo_drives_on :
      (i : Input W) (d : W) (s : AutonomousRobot W) (g : Gear) (c : RobotState)
      → i.first_echo ≡ gives (some d)
      → is_near (some d) ≡ true
      → i.second_echo ≡ gives none
      → s.line_sensor ≡ true
      → s.ultrasonic_sensor ≡ true
      → s.motor_controller ≡ some g
      → s.led_controller ≡ some c
      → f.lt (of_ℕ 999) (of_ℕ 10) ≡ false
      → f.lt (of_ℕ 999) (of_ℕ 20) ≡ false
      → f.lt (of_ℕ 999) (of_ℕ 40) ≡ false
      → (t : AutonomousRobot W) × ((auto_navigation_mode_round i s ≡ gives t)
          × Shows ((pos 50, pos 50), moving) t)
  unfolding auto_navigation_mode_round obstacle_avoidance_mode_round
  failed_echo_drives_on i d s g c e n e' a b m l x y z =
      let motors : has_motors s ≡ true = rw m in
      (
        set_speeds (pos 50) (pos 50) (set_state_color moving s),
        (simp (a, b, motors, e, n, e', x, y, z), shown (pos 50) (pos 50) moving s g c m l),
      )
