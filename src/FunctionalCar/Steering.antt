-- ===== src/FunctionalCar/Steering.antt =====
-- How the car steers: left against right, and the search against the drive.
use adeept_awr.Common.{
  zero, suc, ◌≡◌, Bool, false, not, Option, none, some, arith, ℤ, pos, negsuc, neg, is_zero,
  is_negative,
}
use adeept_awr.Hardware.{Gear, set_motor_speed, wheel}
use adeept_awr.FunctionalCar.State.{Car}
use adeept_awr.FunctionalCar.Turns.{
  set_motor_speeds, drive_forward, execute_left_turn, execute_right_turn,
  execute_left_turn_with_intensity, execute_right_turn_with_intensity, search_line_by_rotation,
}
use adeept_awr.FunctionalCar.Following.{execute_line_following_drive, search_again}

abbrev pub exchanged : Option Gear → Option Gear
exchanged none = none
exchanged (some g) = some (record { motor_a = g.motor_b; motor_b = g.motor_a })

-- The turn that two wheels make: which one of them goes backward.
abbrev pub backward_wheels : Option Gear → Bool × Bool
backward_wheels none = (false, false)
backward_wheels (some g) = (is_negative (wheel g.motor_a), is_negative (wheel g.motor_b))

module _ {ℓ} {W : Type ℓ} where
  -- The motors and the two counts of turns.
  pub record Mirrors (s t : Car W) : Type ℓ where
    pub motors : t.motor_controller ≡ exchanged s.motor_controller
    pub lefts : t.statistics.left_turn_count ≡ s.statistics.right_turn_count
    pub rights : t.statistics.right_turn_count ≡ s.statistics.left_turn_count

  -- A car with as many left turns as right turns steers for a line at the opposite position with the
  -- two wheels exchanged, and counts the turn on the other side.
  pub drive-Mirrors :
      (p : ℤ) (s : Car W)
      → s.statistics.left_turn_count ≡ s.statistics.right_turn_count
      → Mirrors (execute_line_following_drive p s) (execute_line_following_drive (neg p) s)
  unfolding execute_line_following_drive drive_forward set_motor_speeds execute_left_turn
      execute_right_turn execute_left_turn_with_intensity execute_right_turn_with_intensity
      set_motor_speed
  drive-Mirrors (pos zero) s h = ground arith
  drive-Mirrors (pos (suc n)) s h = ground arith
  drive-Mirrors (negsuc n) s h = ground arith

  -- The search for a line that was last seen beside the middle turns the car the other way round
  -- than the drive towards that position does: the right wheel goes back in the one exactly where the
  -- left wheel goes back in the other.
  pub search_opposes_drive :
      (p : ℤ) (s : Car W) (g : Gear)
      → s.motor_controller ≡ some g
      → is_zero p ≡ false
      → let driven = backward_wheels (execute_line_following_drive p s).motor_controller in
        let found =
          backward_wheels (search_again (record s { last_line_position = p })).motor_controller in
        (driven ≡ (is_negative p, not (is_negative p)))
        × (found ≡ (not (is_negative p), is_negative p))
  unfolding execute_line_following_drive drive_forward set_motor_speeds execute_left_turn
      execute_right_turn execute_left_turn_with_intensity execute_right_turn_with_intensity
      set_motor_speed search_line_by_rotation
  search_opposes_drive (pos zero) s g m h = cc
  search_opposes_drive (pos (suc n)) s g m h = ground arith
  search_opposes_drive (negsuc n) s g m h = ground arith
