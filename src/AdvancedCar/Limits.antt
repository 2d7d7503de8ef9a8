-- ===== src/AdvancedCar/Limits.antt =====
-- The speeds that the car commands, in any configuration.
use adeept_awr.Common.{
  ◌≡◌, true, Option, none, some, arith, ℤ, pos, negsuc, ◌≤ℤ◌, limited, Bool-cases, inl, inr, ap,
  ◌∙◌,
}
use adeept_awr.Hardware.{Gear, set_gear}
use adeept_awr.AdvancedCar.Config.{Config, is_between}
use adeept_awr.AdvancedCar.Car.{
  Car, turn_speeds, is_sharp, limit_speed, count_turn, follow_with, follow_line_advanced,
}

≤ℤ-refl : (a : ℤ) → (a ≤ℤ a) ≡ true
≤ℤ-refl (pos m) = ground arith
≤ℤ-refl (negsuc m) = ground arith

limited-between :
    (low high v : ℤ) → (low ≤ℤ high) ≡ true → is_between low high (limited low high v) ≡ true
limited-between low high v h = elim (Bool-cases (v ≤ℤ high)) [
  | inl below ↦ elim (Bool-cases (low ≤ℤ v)) [
    | inl above ↦ rw (below, above, below, above)
    | inr above ↦ rw (below, above, ≤ℤ-refl low, h)
  ]
  | inr below ↦ rw (below, h, h, ≤ℤ-refl high)
]

-- The speeds of the right and of the left wheel that the motors were last set to.
pub record Sets (c : Config) (g : Gear) (s : Car) : Type 0 where
  pub right : ℤ
  pub left : ℤ
  pub motors : s.motor_controller ≡ set_gear right left (some g)
  pub right_within : is_between c.min_speed c.max_speed right ≡ true
  pub left_within : is_between c.min_speed c.max_speed left ≡ true

count-motors : (p : ℤ) (s : Car) → (count_turn p s).motor_controller ≡ s.motor_controller
count-motors p s = ground arith

follow-motors :
    (c : Config) (p : ℤ) (s : Car) (g : Gear) (o : Option Gear)
    → o ≡ some g
    → s.motor_controller ≡ some g
    → let (r, l) = turn_speeds c (is_sharp c p) p in
      (follow_with o c p s).motor_controller ≡ set_gear (limit_speed c r) (limit_speed c l) (some g)
follow-motors c p s g none e m = cc
follow-motors c p s g (some g') e m =
    let (r, l) = turn_speeds c (is_sharp c p) p in
    ap (λ (q : Option Gear). set_gear (limit_speed c r) (limit_speed c l) q) (count-motors p s ∙ m)

-- In any configuration whose two limits are in order, following the line sets both motors, for any
-- position and also with the boost of a sharp turn, to speeds within the limits.
pub follow-Sets :
    (c : Config) (p : ℤ) (s : Car) (g : Gear)
    → (c.min_speed ≤ℤ c.max_speed) ≡ true
    → s.motor_controller ≡ some g
    → Sets c g (follow_line_advanced c p s)
unfolding follow_line_advanced
follow-Sets c p s g h m =
    let (r, l) = turn_speeds c (is_sharp c p) p in
    record {
      right = limit_speed c r;
      left = limit_speed c l;
      motors = follow-motors c p s g s.motor_controller m m;
      right_within = limited-between c.min_speed c.max_speed r h;
      left_within = limited-between c.min_speed c.max_speed l h;
    }
