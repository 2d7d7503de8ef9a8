-- ===== src/Hardware/Pulses.antt =====
-- What is written to the chip of the servo motors.
use adeept_awr.Common.{
  ℕ, zero, suc, ◌≡◌, refl, Bool, true, false, ◌&&◌, Option, none, some, List, [], ◌∷◌, Float, of_ℕ,
  if◌then◌else◌, All, ◌==◌, ℤ, pos, ◌⊎◌, inl, inr, ◌≤◌, ◌+◌, ◌∙◌, leb, ltb, arith,
}
use adeept_awr.Hardware.Servo.{
  Servos, is_channel, is_angle, pulse_of, set_servo_angle, center_servo, known_position,
  position_or_center, move_steps, move_servo_smooth, sweep_servo, set_multiple_servos, same,
  stop_channels, cleanup_servos,
}

and-true : (a b : Bool) → (a && b) ≡ true → (a ≡ true) × (b ≡ true)
and-true true b h = (refl, h)
and-true false b h = cc

module _ {ℓ} {W : Type ℓ} ⦃f : Float W⦄ where
  -- A channel from 0 to 15, and the pulse of an angle from 0 to 180 degrees; where the pulses may
  -- have been ended, also none.
  abbrev pub IsPulse : (W → ℕ) → Bool → ℤ × ℕ → Type ℓ
  IsPulse int off (channel, value) =
      (is_channel channel ≡ true)
      × (((off ≡ true) × (value ≡ 0))
          ⊎ ((a : W) × ((is_angle a ≡ true) × (value ≡ int (pulse_of a)))))

  abbrev pub ArePulses : (W → ℕ) → Bool → Servos W → Type ℓ
  ArePulses int off s = All (IsPulse int off) s.written

  if-ArePulses :
      (int : W → ℕ) (off : Bool) (b : Bool) (s t : Servos W)
      → ArePulses int off t
      → (b ≡ true → ArePulses int off s)
      → ArePulses int off (if b then s else t)
  if-ArePulses int off true s t h k = k refl
  if-ArePulses int off false s t h k = h

  pub set-ArePulses :
      (int : W → ℕ) (off : Bool) (c : ℤ) (a : W) (s : Servos W)
      → ArePulses int off s
      → ArePulses int off (set_servo_angle int c a s)
  unfolding set_servo_angle
  set-ArePulses int off c a s p = if-ArePulses int off (is_channel c && is_angle a) _ s p (λ e.
      let (h, k) = and-true (is_channel c) (is_angle a) e in
      if-ArePulses int off s.is_available _ s p (λ _. ((h, inr (a, (k, refl))), p)))

  pub center-ArePulses :
      (int : W → ℕ) (off : Bool) (c : ℤ) (s : Servos W)
      → ArePulses int off s
      → ArePulses int off (center_servo int c s)
  unfolding center_servo
  center-ArePulses int off c s p = set-ArePulses int off c (of_ℕ 90) s p

  steps-ArePulses :
      (int : W → ℕ) (off : Bool) (c : ℤ) (start diff : W) (steps i n : ℕ) (s : Servos W)
      → ArePulses int off s
      → ArePulses int off (move_steps int c start diff steps i n s)
  unfolding move_steps
  steps-ArePulses int off c start diff steps i zero s p = p
  steps-ArePulses int off c start diff steps i (suc n) s p =
      let angle = f.add start (f.div (f.mul diff (of_ℕ i)) (of_ℕ steps)) in
      steps-ArePulses int off c start diff steps (suc i) n (set_servo_angle int c angle s)
        (set-ArePulses int off c angle s p)

  known-ArePulses :
      (int : W → ℕ) (off : Bool) (c : ℤ) (o : Option W) (s : Servos W)
      → ArePulses int off s
      → ArePulses int off (known_position c o s)
  known-ArePulses int off c (some a) s p = p
  known-ArePulses int off c none s p = p

  smooth-ArePulses :
      (int : W → ℕ) (off : Bool) (c : ℤ) (target : W) (steps : ℕ) (s : Servos W)
      → ArePulses int off s
      → ArePulses int off (move_servo_smooth int c target steps s)
  unfolding move_servo_smooth
  smooth-ArePulses int off c target steps s p =
      let start = position_or_center (s.current_positions c) in
      let s' = known_position c (s.current_positions c) s in
      let p' = known-ArePulses int off c (s.current_positions c) s p in
      if-ArePulses int off (steps == 0) _ _
        (steps-ArePulses int off c start (f.sub target start) steps 0 (suc steps) s' p')
        (λ _. set-ArePulses int off c target s' p')

  pub sweep-ArePulses :
      (int : W → ℕ) (off : Bool) (c : ℤ) (a b : W) (steps n : ℕ) (s : Servos W)
      → ArePulses int off s
      → ArePulses int off (sweep_servo int c a b steps n s)
  unfolding sweep_servo
  sweep-ArePulses int off c a b steps zero s p = p
  sweep-ArePulses int off c a b steps (suc n) s p =
      let there = move_servo_smooth int c b steps s in
      sweep-ArePulses int off c a b steps n (move_servo_smooth int c a steps there)
        (smooth-ArePulses int off c a steps there (smooth-ArePulses int off c b steps s p))

  multiple-ArePulses :
      (int : W → ℕ) (off : Bool) (angles : List (ℤ × W)) (s : Servos W)
      → ArePulses int off s
      → ArePulses int off (set_multiple_servos int angles s)
  unfolding set_multiple_servos
  multiple-ArePulses int off [] s p = p
  multiple-ArePulses int off ((c, a) ∷ angles) s p =
      multiple-ArePulses int off angles (set_servo_angle int c a s) (set-ArePulses int off c a s p)

  -- Once the pulses may have been ended.
  off-All :
      (int : W → ℕ) (off : Bool) (ws : List (ℤ × ℕ))
      → All (IsPulse int off) ws
      → All (IsPulse int true) ws
  off-All int off [] p = p
  off-All int off ((c, v) ∷ ws) ((h, inl (o, e)), p) = ((h, inl (refl, e)), off-All int off ws p)
  off-All int off ((c, v) ∷ ws) ((h, inr k), p) = ((h, inr k), off-All int off ws p)

  channels-ArePulses :
      (int : W → ℕ) (i n : ℕ) (s : Servos W)
      → i + n ≤ 16
      → ArePulses int true s
      → ArePulses int true (stop_channels i n s)
  unfolding stop_channels
  channels-ArePulses int i zero s b p = p
  channels-ArePulses int i (suc n) s b p =
      channels-ArePulses int (suc i) n (record s { written = (pos i, 0) ∷ s.written })
        (omega (arith, b)) ((ground (arith, b), inl (refl, refl)), p)

  pub cleanup-ArePulses :
      (int : W → ℕ) (off : Bool) (s : Servos W)
      → ArePulses int off s
      → ArePulses int true (cleanup_servos s)
  unfolding cleanup_servos
  cleanup-ArePulses int off s p =
      let p' = off-All int off s.written p in
      if-ArePulses int true s.is_available _ s p'
        (λ _. channels-ArePulses int 0 16 s (omega arith) p')

-- What was last written for a channel, of what was written, the newest first.
abbrev pub last_value : ℕ → List (ℤ × ℕ) → Option ℕ
last_value n [] = none
last_value n ((c, v) ∷ ws) =
    let before = last_value n ws in if same c (pos n) then some v else before

module _ {ℓ} {W : Type ℓ} where
  -- The channels 0 to 15 get no pulses, where there is a chip.
  abbrev pub AreOff : Servos W → Type 0
  AreOff s = s.is_available ≡ true → (n : ℕ) → n ≤ 15 → last_value n s.written ≡ some 0

  channels-last_value :
      (k i n : ℕ) (s : Servos W)
      → last_value k (stop_channels i n s).written
        ≡ (if leb i k && ltb k (i + n) then some 0 else last_value k s.written)
  unfolding stop_channels
  channels-last_value k i zero s = ground arith
  channels-last_value k i (suc n) s =
      channels-last_value k (suc i) n (record s { written = (pos i, 0) ∷ s.written }) ∙ ground arith

  pub cleanup-AreOff : (s : Servos W) → AreOff (cleanup_servos s)
  unfolding cleanup_servos
  cleanup-AreOff s = if-AreOff s.is_available refl
    where
      if-AreOff : (b : Bool) → s.is_available ≡ b → AreOff (if b then stop_channels 0 16 s else s)
      if-AreOff true e = λ a n h. channels-last_value n 0 16 s ∙ ground (arith, h)
      if-AreOff false e = λ a n h. cc
