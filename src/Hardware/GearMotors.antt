-- ===== src/Hardware/GearMotors.antt =====
-- `GearMotorController` of hardware/test_gear_motors.py: two direction pins and a duty cycle in
-- percent for each motor, A on the right and B on the left.
use adeept_awr.Common.{ℕ, zero, suc, Bool, true, false}
use adeept_awr.Common.{Option, none, some, ℤ, pos, negsuc, minus, clamp_percent}

pub record Pins : Type 0 where
  pub pin1 : Bool
  pub pin2 : Bool
  pub duty_cycle : ℕ

pub record Gear : Type 0 where
  pub motor_a : Pins
  pub motor_b : Pins

pub data Side : Type 0 where
  motor_A motor_B : Side

abbrev pub stopped : Pins
stopped = record { pin1 = false; pin2 = false; duty_cycle = 0 }

-- The state that `setup` leaves.
unfoldable pub initial_gear : Gear
initial_gear = record { motor_a = stopped; motor_b = stopped }

unfoldable pub motor_stop : Gear → Gear
motor_stop g = record { motor_a = stopped; motor_b = stopped }

abbrev pub pins_for : ℤ → Pins
pins_for (pos zero) = stopped
pins_for (pos (suc n)) = record { pin1 = true; pin2 = false; duty_cycle = suc n }
pins_for (negsuc n) = record { pin1 = false; pin2 = true; duty_cycle = suc n }

unfoldable pub set_motor_speed : Side → ℤ → Gear → Gear
set_motor_speed motor_A speed g = record g { motor_a = pins_for (clamp_percent speed) }
set_motor_speed motor_B speed g = record g { motor_b = pins_for (clamp_percent speed) }

-- The speed that the pins of a motor stand for.
abbrev pub wheel : Pins → ℤ
wheel p = wheel_of p.pin1 p.pin2 p.duty_cycle
  where
    wheel_of : Bool → Bool → ℕ → ℤ
    wheel_of true false d = pos d
    wheel_of false true d = minus d
    wheel_of _ _ d = pos 0

-- What the callers do to a motor controller, which is `None` in a simulation.
abbrev pub stop_gear : Option Gear → Option Gear
stop_gear none = none
stop_gear (some g) = some (motor_stop g)

abbrev pub set_gear : ℤ → ℤ → Option Gear → Option Gear
set_gear right_speed left_speed none = none
set_gear right_speed left_speed (some g) =
    some (set_motor_speed motor_B left_speed (set_motor_speed motor_A right_speed g))
