-- ===== src/Hardware/Examples.antt =====
-- Concrete runs of the drivers, in thousandths.
use adeept_awr.Common.{
  ℕ, ◌≡◌, refl, Bool, true, false, ◌&&◌, some, ltb, arith, fixed_float, pos, negsuc, List, [], ◌∷◌,
}
use adeept_awr.Hardware.GearMotors.{Gear, motor_A, motor_B, initial_gear, set_motor_speed, wheel}
use adeept_awr.Hardware.LineSensor.{Levels, pattern_of, position_map, get_line_position}
use adeept_awr.Hardware.UltrasonicSensor.{
  result, measure_distance, wait_while, get_status, slow_down, yellow,
}
use adeept_awr.Hardware.ReadBack.{motor, Call, sets, stops, calls, asked, wheel-calls}
use adeept_awr.Hardware.Polling.{IsComplete, measure_distance-IsComplete}

abbrev spinning : Gear
spinning = set_motor_speed motor_B (negsuc 49) initial_gear

-- A speed out of range, one of the other motor, a stop, and a speed backward.
abbrev driven : List Call
driven = sets motor_A (pos 130) ∷ sets motor_B (pos 40) ∷ stops ∷ sets motor_A (negsuc 119) ∷ []

wheel-calls_example :
    wheel (motor motor_A (calls driven spinning))
    ≡ asked motor_A driven (wheel (motor motor_A spinning))
wheel-calls_example = wheel-calls motor_A driven spinning

driven_back : asked motor_A driven (pos 20) ≡ negsuc 99
unfolding asked
driven_back = refl

-- The line under the left and the middle sensor.
abbrev leftish : Levels
leftish = record { left = true; middle = true; right = false }

leftish_position : get_line_position leftish ≡ some (negsuc 4)
unfolding get_line_position pattern_of position_map
leftish_position = refl

-- The echo is seen in the third reading and lasts for two more; a reading takes a millisecond.
abbrev pin : ℕ → Bool
pin n = ltb 2 n

abbrev clock : ℕ → ℕ
clock n = n

pulse_measured : measure_distance 40 (λ d. d) (λ n. ltb 2 n && ltb n 5) clock ≡ result (some 34300)
unfolding measure_distance wait_while
pulse_measured = refl

measure_distance-IsComplete_example :
    IsComplete (λ (d : ℕ). d) (measure_distance 40 (λ d. d) pin clock)
measure_distance-IsComplete_example =
    measure_distance-IsComplete 30 40 (λ d. d) pin clock (omega arith) (λ n. ground arith)

status_at_25 : get_status {W = ℕ} (some 25000) ≡ (slow_down, yellow)
unfolding get_status
status_at_25 = refl
