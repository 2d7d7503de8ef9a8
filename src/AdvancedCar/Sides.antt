-- ===== src/AdvancedCar/Sides.antt =====
-- To which side the car turns, against the functional car.
use mathlib.Core.Path.{ap₂}
use adeept_awr.Common.{
  zero, suc, ◌≡◌, sym, ◌∙◌, Bool, false, not, Option, none, some, arith, ℤ, pos, negsuc, is_zero,
  is_negative, ◌≤ℤ◌,
}
use adeept_awr.Hardware.{Gear, set_motor_speed, wheel}
use adeept_awr.FunctionalCar
use adeept_awr.FunctionalCar.{execute_line_following_drive, backward_wheels, search_opposes_drive}
use adeept_awr.AdvancedCar.Config.{car_config}
use adeept_awr.AdvancedCar.Car.{Car, follow_line_advanced}

-- Whether the right wheel is driven faster than the left one, ahead.
abbrev pub right_is_faster : Option Gear → Bool
right_is_faster none = false
right_is_faster (some g) = not (wheel g.motor_a ≤ℤ wheel g.motor_b)

abbrev pub left_is_faster : Option Gear → Bool
left_is_faster none = false
left_is_faster (some g) = not (wheel g.motor_b ≤ℤ wheel g.motor_a)

turns_towards :
    (p : ℤ) (s : Car) (g : Gear)
    → s.motor_controller ≡ some g
    → is_zero p ≡ false
    → let o = (follow_line_advanced car_config p s).motor_controller in
      (right_is_faster o ≡ is_negative p) × (left_is_faster o ≡ not (is_negative p))
unfolding follow_line_advanced set_motor_speed
turns_towards (pos zero) s g m h = cc
turns_towards (pos (suc n)) s g m h = ground arith
turns_towards (negsuc n) s g m h = ground arith

module _ {ℓ} {W : Type ℓ} where
  -- With the configuration as it stands in car_config.py, and for a line beside the middle: the two
  -- cars turn to opposite sides.  The wheel that the functional car drives backward is the one that
  -- this car drives faster than the other.
  pub cars_disagree :
      (p : ℤ) (s : Car) (t : FunctionalCar.Car W) (g h : Gear)
      → s.motor_controller ≡ some g
      → t.motor_controller ≡ some h
      → is_zero p ≡ false
      → let o = (follow_line_advanced car_config p s).motor_controller in
        backward_wheels (execute_line_following_drive p t).motor_controller
        ≡ (right_is_faster o, left_is_faster o)
  cars_disagree p s t g h m n z =
      let (r, l) = turns_towards p s g m z in
      let (d, q) = search_opposes_drive p t h n z in d ∙ sym (ap₂ (λ (a b : Bool). (a, b)) r l)
