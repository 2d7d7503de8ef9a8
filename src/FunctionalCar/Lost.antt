-- ===== src/FunctionalCar/Lost.antt =====
-- A line that is lost for some rounds.
use adeept_awr.Common.{
  ℕ, zero, suc, ◌+◌, ◌≡◌, refl, Option, none, some, arith, ltb, ◌==◌, if◌then◌else◌, ℤ, pos, neg,
  is_zero, is_negative, ◌||◌, ◌∙◌, ap,
}
use adeept_awr.Hardware.{Gear, set_motor_speed, motor_stop, set_gear, stop_gear}
use adeept_awr.FunctionalCar.State.{Car}
use adeept_awr.FunctionalCar.Turns.{set_motor_speeds, stop_motors, search_line_by_rotation}
use adeept_awr.FunctionalCar.Following.{
  handle_line_lost_situation, execute_line_following_control_logic,
}

-- The motors of a car that has lost the line for `n` rounds in a row.
abbrev pub lost_gear : ℕ → ℤ → Option Gear → Option Gear
lost_gear zero p o = o
lost_gear (suc n) p o =
    if ltb 5 (suc n)
    then if is_zero p || is_negative p
      then set_gear (pos 30) (neg (pos 30)) o
      else set_gear (neg (pos 30)) (pos 30) o
    else stop_gear o

lost_gear-again :
    (n : ℕ) (p : ℤ) (o : Option Gear)
    → lost_gear (suc n) p (lost_gear n p o) ≡ lost_gear (suc n) p o
unfolding set_motor_speed motor_stop
lost_gear-again zero p o = refl
lost_gear-again (suc n) p none = ground arith
lost_gear-again (suc n) p (some g) = ground arith

module _ {ℓ} {W : Type ℓ} where
  abbrev pub lose_line : ℕ → Car W → Car W
  lose_line zero s = s
  lose_line (suc n) s = execute_line_following_control_logic none (lose_line n s)

  -- What `n` rounds without the line make of a car.
  pub record LostFor (n : ℕ) (s t : Car W) : Type 0 where
    pub counter : t.line_lost_counter ≡ n
    pub position : t.last_line_position ≡ s.last_line_position
    pub motors : t.motor_controller ≡ lost_gear n s.last_line_position s.motor_controller
    pub losses :
        t.statistics.line_lost_count ≡ s.statistics.line_lost_count + (if ltb 5 n then 1 else 0)

  round-lost :
      (n : ℕ) (t : Car W)
      → t.line_lost_counter ≡ n
      → let t' = execute_line_following_control_logic none t in
        (t'.line_lost_counter ≡ suc n)
        × ((t'.last_line_position ≡ t.last_line_position)
            × ((t'.motor_controller ≡ lost_gear (suc n) t.last_line_position t.motor_controller)
                × (t'.statistics.line_lost_count
                    ≡ t.statistics.line_lost_count + (if suc n == 6 then 1 else 0))))
  unfolding execute_line_following_control_logic handle_line_lost_situation stop_motors
      search_line_by_rotation set_motor_speeds
  round-lost zero t h = ground arith
  round-lost (suc n) t h = ground arith

  lost-LostFor :
      (n : ℕ) (s t : Car W)
      → LostFor n s t
      → LostFor (suc n) s (execute_line_following_control_logic none t)
  lost-LostFor n s t h =
      let (c, (p, (m, l))) = round-lost n t h.counter in
      let again = lost_gear-again n s.last_line_position s.motor_controller in
      record {
        counter = c;
        position = p ∙ h.position;
        motors =
            m
            ∙ ap (λ (q : ℤ). lost_gear (suc n) q t.motor_controller) h.position
            ∙ ap (lost_gear (suc n) s.last_line_position) h.motors
            ∙ again;
        losses = l ∙ (let e = h.losses in ground arith);
      }

  -- After `n` rounds in a row that do not see the line, counted from one that saw it: the car stands
  -- still up to the fifth, and then it turns on the spot towards the side of the last position, the
  -- middle counting as the left; one more loss is counted from the sixth round on, and only once.
  pub lose_line-LostFor :
      (n : ℕ) (s : Car W) → s.line_lost_counter ≡ 0 → LostFor n s (lose_line n s)
  lose_line-LostFor zero s h = record {
    counter = h;
    position = refl;
    motors = refl;
    losses = omega arith;
  }
  lose_line-LostFor (suc n) s h = lost-LostFor n s (lose_line n s) (lose_line-LostFor n s h)
