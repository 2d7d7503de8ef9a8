-- ===== src/Hardware/Polling.antt =====
-- The two loops of a measurement end.
use adeept_awr.Common.{
  ℕ, zero, suc, ◌+◌, ◌≤◌, ◌≡◌, refl, Bool, true, false, Option, none, some, Float, arith, inl, inr,
  of_ℕ, ◌||◌, if◌then◌else◌, ◌⊎◌,
}
use native.Mathlib.Nat.{add-zero}
use adeept_awr.Hardware.UltrasonicSensor.{
  Waited, level_came, timed_out, out_of_fuel, Measured, result, timeout, wait_while,
  distance_between, end_pulse, await_end, measure_distance,
}

module _ {ℓ} {W : Type ℓ} ⦃f : Float W⦄ where
  abbrev pub Ends : Waited W → Type 0
  Ends out_of_fuel = ⊥
  Ends _ = Unit

  -- How a test of the level and one of the clock go on.
  Ends-poll :
      (seen late : Bool) (rest : Waited W) (n : ℕ) (t : W)
      → (late ≡ true) ⊎ Ends rest
      → Ends (if seen then if late then timed_out else rest else level_came n t)
  Ends-poll false late rest n t h = tt
  Ends-poll true true rest n t h = tt
  Ends-poll true false rest n t (inl e) = cc
  Ends-poll true false rest n t (inr h) = h

  -- What a measurement gives: a failure, or a distance within the range of the sensor, rounded.
  abbrev pub InRange : (W → W) → Option W → Type ℓ
  InRange round_1 none = Unit
  InRange round_1 (some r) =
      (d : W) × ((r ≡ round_1 d) × ((f.lt d (of_ℕ 2) ≡ false) × (f.lt (of_ℕ 400) d ≡ false)))

  wait_while-Ends :
      (k fuel : ℕ) (level : Bool) (pin : ℕ → Bool) (clock : ℕ → W) (start : W) (n : ℕ) (t : W)
      → suc k ≤ fuel
      → f.lt timeout (f.sub (clock (n + k)) start) ≡ true
      → Ends (wait_while fuel level pin clock start n t)
  unfolding wait_while
  wait_while-Ends k zero level pin clock start n t h late = absurd (omega arith)
  wait_while-Ends zero (suc fuel) level pin clock start n t h late =
      let late' : f.lt timeout (f.sub (clock n) start) ≡ true = (rw add-zero at late) in
      Ends-poll _ _ _ _ _ (inl late')
  wait_while-Ends (suc k) (suc fuel) level pin clock start n t h late =
      let shifted : n + suc k ≡ suc n + k = omega arith in
      let late' = rw shifted at late in
      Ends-poll _ _ _ _ _
        (inr (wait_while-Ends k fuel level pin clock start (suc n) (clock n) (omega arith) late'))

  distance-InRange : (round_1 : W → W) (a b : W) → InRange round_1 (distance_between round_1 a b)
  distance-InRange round_1 a b =
      let d = f.div (f.mul (f.sub b a) (of_ℕ 34300)) (of_ℕ 2) in
      by_tests d (f.lt d (of_ℕ 2)) (f.lt (of_ℕ 400) d) refl refl
    where
      by_tests :
          (d : W) (low high : Bool)
          → f.lt d (of_ℕ 2) ≡ low
          → f.lt (of_ℕ 400) d ≡ high
          → InRange round_1 (if low || high then none else some (round_1 d))
      by_tests d true high l h = tt
      by_tests d false true l h = tt
      by_tests d false false l h = (d, (refl, (l, h)))

  -- A measurement that has ended, with a result in the range.
  abbrev pub IsComplete : (W → W) → Measured W → Type ℓ
  IsComplete round_1 m = (o : Option W) × ((m ≡ result o) × InRange round_1 o)

  end_pulse-IsComplete :
      (round_1 : W → W) (t : W) (w : Waited W) → Ends w → IsComplete round_1 (end_pulse round_1 t w)
  end_pulse-IsComplete round_1 t (level_came n u) h = (_, (refl, distance-InRange round_1 t u))
  end_pulse-IsComplete round_1 t timed_out h = (none, (refl, tt))
  end_pulse-IsComplete round_1 t out_of_fuel h = elim h [ ]

  await_end-IsComplete :
      (k fuel : ℕ) (round_1 : W → W) (pin : ℕ → Bool) (clock : ℕ → W) (w : Waited W)
      → suc k ≤ fuel
      → ((n : ℕ) → f.lt timeout (f.sub (clock (suc n + k)) (clock n)) ≡ true)
      → Ends w
      → IsComplete round_1 (await_end fuel round_1 pin clock w)
  await_end-IsComplete k fuel round_1 pin clock (level_came n u) h late e =
      end_pulse-IsComplete round_1 u (wait_while fuel true pin clock (clock n) (suc n) (clock n))
        (wait_while-Ends k fuel true pin clock (clock n) (suc n) (clock n) h (late n))
  await_end-IsComplete k fuel round_1 pin clock timed_out h late e = (none, (refl, tt))
  await_end-IsComplete k fuel round_1 pin clock out_of_fuel h late e = elim e [ ]

  -- Where the clock goes beyond the timeout within `k` more readings, whatever reading it is counted
  -- from, a measurement ends: each of its loops takes at most `suc k` rounds, whatever the echo pin
  -- shows. It gives none, or a distance from 2 to 400 cm, rounded.
  pub measure_distance-IsComplete :
      (k fuel : ℕ) (round_1 : W → W) (pin : ℕ → Bool) (clock : ℕ → W)
      → suc k ≤ fuel
      → ((n : ℕ) → f.lt timeout (f.sub (clock (suc n + k)) (clock n)) ≡ true)
      → IsComplete round_1 (measure_distance fuel round_1 pin clock)
  unfolding measure_distance
  measure_distance-IsComplete k fuel round_1 pin clock h late =
      await_end-IsComplete k fuel round_1 pin clock
        (wait_while fuel false pin clock (clock 0) 1 (clock 0)) h late
        (wait_while-Ends k fuel false pin clock (clock 0) 1 (clock 0) h (late 0))
