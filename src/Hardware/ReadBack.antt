-- ===== src/Hardware/ReadBack.antt =====
-- The pins of a motor against the speeds that were asked for.
use adeept_awr.Common.{
  Bool, true, false, List, [], ◌∷◌, ap, ◌∙◌, ◌≤ℤ◌, ℕ, zero, suc, ◌≤◌, ◌≡◌, refl, arith, ltb, ℤ, pos,
  negsuc, magnitude, signed, clamp_percent, if◌then◌else◌,
}
use adeept_awr.Hardware.GearMotors.{
  Pins, Gear, Side, motor_A, motor_B, pins_for, set_motor_speed, wheel, motor_stop,
}

-- The pins of a motor.
abbrev pub motor : Side → Gear → Pins
motor motor_A g = g.motor_a
motor motor_B g = g.motor_b

pub wheel-pins_for : (v : ℤ) → wheel (pins_for v) ≡ v
wheel-pins_for (pos zero) = refl
wheel-pins_for (pos (suc n)) = refl
wheel-pins_for (negsuc n) = refl

-- A speed, limited to 100 percent either way.
abbrev pub in_percent : ℤ → ℤ
in_percent v = if v ≤ℤ negsuc 99 then negsuc 99 else if pos 100 ≤ℤ v then pos 100 else v

clamp-in_percent : (v : ℤ) → clamp_percent v ≡ in_percent v
clamp-in_percent (pos n) = ground arith
clamp-in_percent (negsuc n) = ground arith

-- The calls of the programs.
pub data Call : Type 0 where
  sets : Side → ℤ → Call
  stops : Call

unfoldable pub calls : List Call → Gear → Gear
unfolding set_motor_speed motor_stop
calls [] g = g
calls (sets m speed ∷ cs) g = calls cs (set_motor_speed m speed g)
calls (stops ∷ cs) g = calls cs (motor_stop g)

abbrev pub same_side : Side → Side → Bool
same_side motor_A motor_A = true
same_side motor_B motor_B = true
same_side _ _ = false

-- The last speed that is asked of a motor, and the speed `v` that it had before where there is none.
unfoldable pub asked : Side → List Call → ℤ → ℤ
asked m [] v = v
asked m (sets n speed ∷ cs) v =
    let other = asked m cs v in
    let mine = asked m cs (in_percent speed) in if same_side m n then mine else other
asked m (stops ∷ cs) v = asked m cs (pos 0)

wheel-set_motor_speed :
    (m n : Side) (speed : ℤ) (g : Gear)
    → wheel (motor m (set_motor_speed n speed g))
      ≡ (if same_side m n then in_percent speed else wheel (motor m g))
unfolding set_motor_speed
wheel-set_motor_speed motor_A motor_A speed g =
    wheel-pins_for (clamp_percent speed) ∙ clamp-in_percent speed
wheel-set_motor_speed motor_B motor_B speed g =
    wheel-pins_for (clamp_percent speed) ∙ clamp-in_percent speed
wheel-set_motor_speed motor_A motor_B speed g = refl
wheel-set_motor_speed motor_B motor_A speed g = refl

wheel-motor_stop : (m : Side) (g : Gear) → wheel (motor m (motor_stop g)) ≡ pos 0
unfolding motor_stop
wheel-motor_stop motor_A g = refl
wheel-motor_stop motor_B g = refl

asked-if :
    (b : Bool) (m : Side) (cs : List Call) (u v : ℤ)
    → asked m cs (if b then u else v) ≡ (if b then asked m cs u else asked m cs v)
asked-if true m cs u v = refl
asked-if false m cs u v = refl

-- Over any calls to both motors and from any pins: the direction pins and the duty cycle of a motor
-- read back as the last speed that was asked of it, limited to 100 percent either way, where a stop
-- asks for none, and calls to the other motor have no part in it.
pub wheel-calls :
    (m : Side) (cs : List Call) (g : Gear)
    → wheel (motor m (calls cs g)) ≡ asked m cs (wheel (motor m g))
unfolding calls asked
wheel-calls m [] g = refl
wheel-calls m (sets n speed ∷ cs) g =
    wheel-calls m cs (set_motor_speed n speed g)
    ∙ (ap (λ v. asked m cs v) (wheel-set_motor_speed m n speed g)
        ∙ asked-if (same_side m n) m cs (in_percent speed) (wheel (motor m g)))
wheel-calls m (stops ∷ cs) g =
    wheel-calls m cs (motor_stop g) ∙ ap (λ v. asked m cs v) (wheel-motor_stop m g)

magnitude-signed : (v : ℤ) (n : ℕ) → magnitude (signed v n) ≡ n
magnitude-signed (pos m) n = refl
magnitude-signed (negsuc m) zero = refl
magnitude-signed (negsuc m) (suc n) = refl

-- A speed of at most 100 percent is not changed.
pub clamp_percent-id : (v : ℤ) → magnitude v ≤ 100 → clamp_percent v ≡ v
clamp_percent-id (pos n) h = ground arith
clamp_percent-id (negsuc n) h =
    let e : (if ltb 100 (suc n) then 100 else suc n) ≡ suc n = ground arith in rw e
