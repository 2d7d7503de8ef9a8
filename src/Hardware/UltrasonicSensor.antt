-- ===== src/Hardware/UltrasonicSensor.antt =====
-- `UltrasonicSensor` of hardware/test_ultrasonic_sensor.py. The echo pin and the clock are read
-- again and again: the `n`-th reading of each is an argument, and a loop runs on fuel.
use adeept_awr.Common.{
  ℕ, zero, suc, Bool, true, false, ◌||◌, Option, none, some, Float, of_ℕ, if◌then◌else◌,
}

-- How a loop that waits for a level ends: with the number of the next reading and the last time
-- that it saw, or after the timeout.
pub data Waited {ℓ} (W : Type ℓ) : Type ℓ where
  level_came : ℕ → W → Waited W
  timed_out out_of_fuel : Waited W

pub data Status : Type 0 where
  measuring_failed emergency_stop avoid_obstacle slow_down normal : Status

pub data LedColor : Type 0 where
  red orange yellow green : LedColor

-- The result of a measurement, or none for want of fuel.
pub data Measured {ℓ} (W : Type ℓ) : Type ℓ where
  result : Option W → Measured W
  no_fuel : Measured W

abbrev same_level : Bool → Bool → Bool
same_level true b = b
same_level false true = false
same_level false false = true

module _ {ℓ} {W : Type ℓ} ⦃f : Float W⦄ where
  abbrev pub timeout : W
  timeout = f.div (f.mul (of_ℕ 400) (of_ℕ 2)) (of_ℕ 34300)

  -- `while GPIO.input(ECHO_PIN) == level`: the `n`-th reading of the pin, then of the clock
  unfoldable pub wait_while : ℕ → Bool → (ℕ → Bool) → (ℕ → W) → W → ℕ → W → Waited W
  wait_while zero level pin clock timeout_start n last = out_of_fuel
  wait_while (suc fuel) level pin clock timeout_start n last =
      let rest = wait_while fuel level pin clock timeout_start (suc n) (clock n) in
      if same_level level (pin n)
      then if f.lt timeout (f.sub (clock n) timeout_start) then timed_out else rest
      else level_came (suc n) last

  -- `round(distance, 1)` of a distance in the range of the sensor; the rounding is an argument.
  abbrev pub distance_between : (W → W) → W → W → Option W
  distance_between round_1 pulse_start pulse_end =
      let distance = f.div (f.mul (f.sub pulse_end pulse_start) (of_ℕ 34300)) (of_ℕ 2) in
      if f.lt distance (of_ℕ 2) || f.lt (of_ℕ 400) distance then none else some (round_1 distance)

  abbrev pub end_pulse : (W → W) → W → Waited W → Measured W
  end_pulse round_1 pulse_start (level_came n pulse_end) =
      result (distance_between round_1 pulse_start pulse_end)
  end_pulse round_1 pulse_start timed_out = result none
  end_pulse round_1 pulse_start out_of_fuel = no_fuel

  abbrev pub await_end : ℕ → (W → W) → (ℕ → Bool) → (ℕ → W) → Waited W → Measured W
  await_end fuel round_1 pin clock (level_came n pulse_start) =
      end_pulse round_1 pulse_start (wait_while fuel true pin clock (clock n) (suc n) (clock n))
  await_end fuel round_1 pin clock timed_out = result none
  await_end fuel round_1 pin clock out_of_fuel = no_fuel

  unfoldable pub measure_distance : ℕ → (W → W) → (ℕ → Bool) → (ℕ → W) → Measured W
  unfolding wait_while
  measure_distance fuel round_1 pin clock =
      await_end fuel round_1 pin clock (wait_while fuel false pin clock (clock 0) 1 (clock 0))

  unfoldable pub get_status : Option W → Status × LedColor
  get_status none = (measuring_failed, red)
  get_status (some distance) =
      if f.lt distance (of_ℕ 10)
      then (emergency_stop, red)
      else if f.lt distance (of_ℕ 20)
      then (avoid_obstacle, orange)
      else if f.lt distance (of_ℕ 40)
      then (slow_down, yellow)
      else (normal, green)
