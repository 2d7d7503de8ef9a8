-- ===== src/Hardware/Servo.antt =====
-- `ServoMotorController` of hardware/test_servo_motors.py: the last angle of each channel, and what
-- was written to the chip, the newest first. A number of degrees is a `float`, and the conversion
-- `int(...)` of one is an argument. Writing to the chip is taken not to raise.
use adeept_awr.Common.{
  ℕ, zero, suc, Bool, false, ◌&&◌, Option, none, some, List, [], ◌∷◌, Float, of_ℕ, if◌then◌else◌,
  leb, ◌==◌, ℤ, pos, negsuc,
}

pub record Servos {ℓ} (W : Type ℓ) : Type ℓ where
  -- the library could be imported, and the chip was found
  pub is_available : Bool
  pub current_positions : ℤ → Option W
  pub written : List (ℤ × ℕ)

abbrev pub same : ℤ → ℤ → Bool
same (pos m) (pos n) = m == n
same (negsuc m) (negsuc n) = m == n
same (pos m) (negsuc n) = false
same (negsuc m) (pos n) = false

-- `0 <= channel <= 15`
abbrev pub is_channel : ℤ → Bool
is_channel (pos n) = leb n 15
is_channel (negsuc n) = false

module _ {ℓ} {W : Type ℓ} where
  abbrev pub record_position : ℤ → W → (ℤ → Option W) → ℤ → Option W
  record_position channel angle positions c = if same channel c then some angle else positions c

  abbrev pub write : ℤ → ℕ → W → Servos W → Servos W
  write channel pwm_value angle s =
      if s.is_available
      then record s {
        current_positions = record_position channel angle s.current_positions;
        written = (channel, pwm_value) ∷ s.written;
      }
      else s

  -- The channels `i` to `i + n - 1` of the loop of `cleanup`, which get no more pulses.
  unfoldable pub stop_channels : ℕ → ℕ → Servos W → Servos W
  stop_channels i zero s = s
  stop_channels i (suc n) s =
      stop_channels (suc i) n (record s { written = (pos i, 0) ∷ s.written })

  -- `cleanup`; the positions that are kept stay as they are
  unfoldable pub cleanup_servos : Servos W → Servos W
  unfolding stop_channels
  cleanup_servos s = if s.is_available then stop_channels 0 16 s else s

module _ {ℓ} {W : Type ℓ} ⦃f : Float W⦄ where
  -- `0 <= angle <= 180`
  abbrev pub is_angle : W → Bool
  is_angle angle = f.le (of_ℕ 0) angle && f.le angle (of_ℕ 180)

  -- The pulse of an angle, before `int`.
  abbrev pub pulse_of : W → W
  pulse_of angle = f.add (of_ℕ 150) (f.mul (f.div angle (of_ℕ 180)) (f.sub (of_ℕ 600) (of_ℕ 150)))

  unfoldable pub set_servo_angle : (W → ℕ) → ℤ → W → Servos W → Servos W
  set_servo_angle int channel angle s =
      if is_channel channel && is_angle angle
      then write channel (int (pulse_of angle)) angle s
      else s

  unfoldable pub center_servo : (W → ℕ) → ℤ → Servos W → Servos W
  unfolding set_servo_angle
  center_servo int channel s = set_servo_angle int channel (of_ℕ 90) s

  abbrev pub known_position : ℤ → Option W → Servos W → Servos W
  known_position channel (some a) s = s
  known_position channel none s = record s {
    current_positions = record_position channel (of_ℕ 90) s.current_positions;
  }

  abbrev pub position_or_center : Option W → W
  position_or_center none = of_ℕ 90
  position_or_center (some a) = a

  -- The rounds `i` to `i + n - 1` of the loop.
  unfoldable pub move_steps : (W → ℕ) → ℤ → W → W → ℕ → ℕ → ℕ → Servos W → Servos W
  unfolding set_servo_angle
  move_steps int channel start diff steps i zero s = s
  move_steps int channel start diff steps i (suc n) s =
      move_steps int channel start diff steps (suc i) n
        (set_servo_angle int channel (f.add start (f.div (f.mul diff (of_ℕ i)) (of_ℕ steps))) s)

  -- `steps` is `int(duration * 20)`.
  unfoldable pub move_servo_smooth : (W → ℕ) → ℤ → W → ℕ → Servos W → Servos W
  unfolding set_servo_angle move_steps
  move_servo_smooth int channel target steps s =
      let start = position_or_center (s.current_positions channel) in
      let s' = known_position channel (s.current_positions channel) s in
      if steps == 0
      then set_servo_angle int channel target s'
      else move_steps int channel start (f.sub target start) steps 0 (suc steps) s'

  unfoldable pub sweep_servo : (W → ℕ) → ℤ → W → W → ℕ → ℕ → Servos W → Servos W
  unfolding move_servo_smooth
  sweep_servo int channel start_angle end_angle steps zero s = s
  sweep_servo int channel start_angle end_angle steps (suc cycles) s =
      sweep_servo int channel start_angle end_angle steps cycles (
        move_servo_smooth int channel start_angle steps
          (move_servo_smooth int channel end_angle steps s))

  unfoldable pub set_multiple_servos : (W → ℕ) → List (ℤ × W) → Servos W → Servos W
  unfolding set_servo_angle
  set_multiple_servos int [] s = s
  set_multiple_servos int ((channel, angle) ∷ angles) s =
      set_multiple_servos int angles (set_servo_angle int channel angle s)
