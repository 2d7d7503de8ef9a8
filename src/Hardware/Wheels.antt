-- ===== src/Hardware/Wheels.antt =====
-- What the programs may ask of the two wheels.
use adeept_awr.Common.{
  ℕ, ◌≤◌, ◌≡◌, refl, false, ◌&&◌, Option, none, some, arith, ℤ, is_negative, magnitude,
  clamp_percent,
}
use adeept_awr.Hardware.GearMotors.{Gear, motor_stop, set_motor_speed, wheel, stop_gear, set_gear}
use adeept_awr.Hardware.ReadBack.{wheel-pins_for}

-- The speeds of the right and of the left wheel, after the controller has limited them: at most one
-- of them is backward, and none is above the limit in percent.
pub record Allowed (limit : ℕ) (r l : ℤ) : Type 0 where
  pub one_ahead : (is_negative r && is_negative l) ≡ false
  pub right_limit : magnitude r ≤ limit
  pub left_limit : magnitude l ≤ limit

abbrev pub allowed :
    (limit : ℕ) (r l : ℤ)
    → (is_negative r && is_negative l) ≡ false
    → magnitude r ≤ limit
    → magnitude l ≤ limit
    → Allowed limit r l
allowed limit r l a b c = record { one_ahead = a; right_limit = b; left_limit = c }

-- A simulation has no wheels.
abbrev pub IsDriven : ℕ → Option Gear → Type 0
IsDriven limit none = Unit
IsDriven limit (some g) = Allowed limit (wheel g.motor_a) (wheel g.motor_b)

pub stop_gear-IsDriven : (limit : ℕ) (o : Option Gear) → IsDriven limit (stop_gear o)
unfolding motor_stop
stop_gear-IsDriven limit none = tt
stop_gear-IsDriven limit (some g) = allowed limit _ _ refl (omega arith) (omega arith)

pub set_gear-IsDriven :
    (limit : ℕ) (r l : ℤ) (o : Option Gear)
    → Allowed limit (clamp_percent r) (clamp_percent l)
    → IsDriven limit (set_gear r l o)
unfolding set_motor_speed
set_gear-IsDriven limit r l none h = tt
set_gear-IsDriven limit r l (some g) h =
    rw (wheel-pins_for (clamp_percent r), wheel-pins_for (clamp_percent l)) h

-- Two speeds that are told apart by computing them.
pub speeds-IsDriven :
    {limit : ℕ} (r l : ℤ) (o : Option Gear)
    → (is_negative (clamp_percent r) && is_negative (clamp_percent l)) ≡ false
    → magnitude (clamp_percent r) ≤ limit
    → magnitude (clamp_percent l) ≤ limit
    → IsDriven limit (set_gear r l o)
speeds-IsDriven {limit} r l o a b c = set_gear-IsDriven limit r l o (allowed limit _ _ a b c)
