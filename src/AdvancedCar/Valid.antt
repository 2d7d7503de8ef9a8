-- ===== src/AdvancedCar/Valid.antt =====
-- When a configuration is accepted.
use adeept_awr.Common.{
  ℕ, ◌≤◌, ◌≡◌, refl, ◌↔◌, Bool, true, false, ◌&&◌, List, [], ◌∷◌, ◌++◌, arith, leb, ℤ, pos, negsuc,
  is_negative, magnitude,
}
use adeept_awr.AdvancedCar.Config.{
  Config, ConfigError, motor_speed_error, is_between, error_unless, motor_errors, validate_config,
}
use adeept_awr.AdvancedCar.Loop.{accepts, may_start}

-- A percentage, and a speed in percent either way.
pub record IsPercent (v : ℤ) : Type 0 where
  pub not_negative : is_negative v ≡ false
  pub at_most : magnitude v ≤ 100

pub record IsValid (c : Config) : Type 0 where
  pub forward : IsPercent c.forward_speed
  pub search : IsPercent c.search_speed
  pub left_turn_right : magnitude c.left_turn_right_motor ≤ 100
  pub left_turn_left : magnitude c.left_turn_left_motor ≤ 100
  pub right_turn_left : magnitude c.right_turn_left_motor ≤ 100
  pub right_turn_right : magnitude c.right_turn_right_motor ≤ 100
  pub frequency_not_zero : 1 ≤ c.control_frequency
  pub frequency_at_most : c.control_frequency ≤ 100

percent-IsPercent : (v : ℤ) → is_between (pos 0) (pos 100) v ≡ true → IsPercent v
percent-IsPercent (pos n) h = ground arith
percent-IsPercent (negsuc n) h = cc

motor-le : (v : ℤ) → is_between (negsuc 99) (pos 100) v ≡ true → magnitude v ≤ 100
motor-le (pos n) h = ground arith
motor-le (negsuc n) h = ground arith

frequency-le : (n : ℕ) → (leb 1 n && leb n 100) ≡ true → (1 ≤ n) × (n ≤ 100)
frequency-le n h = ground arith

-- No errors in two lists together.
accepts-append :
    (xs ys : List ConfigError)
    → accepts (xs ++ ys) ≡ true
    → (accepts xs ≡ true) × (accepts ys ≡ true)
accepts-append [] ys h = (refl, h)
accepts-append (x ∷ xs) ys h = cc

accepts-error_unless : (b : Bool) (e : ConfigError) → accepts (error_unless b e) ≡ true → b ≡ true
accepts-error_unless true e h = refl
accepts-error_unless false e h = cc

motors-le :
    (a b c d : ℤ)
    → accepts (motor_errors (a ∷ b ∷ c ∷ d ∷ [])) ≡ true
    → ((magnitude a ≤ 100) × (magnitude b ≤ 100)) × ((magnitude c ≤ 100) × (magnitude d ≤ 100))
unfolding motor_errors
motors-le a b c d h =
    let (p, h₁) = accepts-append _ _ h in
    let (q, h₂) = accepts-append _ _ h₁ in
    let (r, h₃) = accepts-append _ _ h₂ in
    let (t, h₄) = accepts-append _ _ h₃ in
    let within : (v : ℤ)
        → accepts (error_unless (is_between (negsuc 99) (pos 100) v) (motor_speed_error v)) ≡ true
        → magnitude v ≤ 100 =
      λ v e. motor-le v (accepts-error_unless _ _ e) in
    ((within a p, within b q), (within c r, within d t))

accepted-IsValid : (c : Config) → may_start c ≡ true → IsValid c
unfolding may_start validate_config motor_errors
accepted-IsValid c h =
    let (f, h₁) = accepts-append _ _ h in
    let (s, h₂) = accepts-append _ _ h₁ in
    let (m, h₃) = accepts-append _ _ h₂ in
    let (n, k) = frequency-le c.control_frequency (accepts-error_unless _ _ h₃) in
    let ((p, q), (r, t)) =
      motors-le c.left_turn_right_motor c.left_turn_left_motor c.right_turn_left_motor
        c.right_turn_right_motor m in
    record {
      forward = percent-IsPercent c.forward_speed (accepts-error_unless _ _ f);
      search = percent-IsPercent c.search_speed (accepts-error_unless _ _ s);
      left_turn_right = p;
      left_turn_left = q;
      right_turn_left = r;
      right_turn_right = t;
      frequency_not_zero = n;
      frequency_at_most = k;
    }

between-percent : (v : ℤ) → IsPercent v → is_between (pos 0) (pos 100) v ≡ true
between-percent (pos n) h = ground arith
between-percent (negsuc n) h = cc h.not_negative

between-motor : (v : ℤ) → magnitude v ≤ 100 → is_between (negsuc 99) (pos 100) v ≡ true
between-motor (pos n) h = ground arith
between-motor (negsuc n) h = ground arith

-- The program starts with a configuration exactly if each of its speeds and its frequency are in
-- their ranges.  The boost of a sharp turn and the limits of the speeds are not looked at.
pub may_start-IsValid : (c : Config) → (may_start c ≡ true) ↔ IsValid c
unfolding may_start validate_config motor_errors
may_start-IsValid c = (
  accepted-IsValid c,
  λ h.
      let frequency : (leb 1 c.control_frequency && leb c.control_frequency 100) ≡ true =
        ground (arith, h.frequency_not_zero, h.frequency_at_most) in
      rw (
        between-percent c.forward_speed h.forward,
        between-percent c.search_speed h.search,
        between-motor c.left_turn_right_motor h.left_turn_right,
        between-motor c.left_turn_left_motor h.left_turn_left,
        between-motor c.right_turn_left_motor h.right_turn_left,
        between-motor c.right_turn_right_motor h.right_turn_right,
        frequency,
      ),
)
