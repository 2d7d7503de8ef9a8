-- ===== src/Ultrasonic/Echo.antt =====
-- The measuring functions of simple_ultrasonic_functions.py. An echo is what the pins show of one
-- pulse: none in time, an exception of the library, or a duration in seconds.
use adeept_awr.Common.{
  ℕ, zero, suc, ◌+◌, ◌/◌, Bool, ◌&&◌, Option, none, some, List, [], ◌∷◌, Float, of_ℕ, if◌then◌else◌,
  leb, length, get_elem?, push, sort,
}

pub data Echo {ℓ} (W : Type ℓ) : Type ℓ where
  timed_out failed : Echo W
  pulse : W → Echo W

abbrev pub distance_memory_size : ℕ
distance_memory_size = 5

-- The distances that were measured.
abbrev pub present {ℓ} : {W : Type ℓ} → Option W → List W → List W
present none ds = ds
present (some d) ds = d ∷ ds

module _ {ℓ} {W : Type ℓ} ⦃f : Float W⦄ where
  abbrev pub in_range : W → Option W
  in_range d = if f.le (of_ℕ 2) d && f.le d (of_ℕ 300) then some d else none

  abbrev pub distance_of : Echo W → Option W
  distance_of (pulse t) = in_range (f.div (f.mul t (of_ℕ 34000)) (of_ℕ 2))
  distance_of _ = none

  unfoldable pub measure_distance_once_in_centimeters : Bool → Echo W → Option W
  measure_distance_once_in_centimeters is_ultrasonic_initialized e =
      if is_ultrasonic_initialized then distance_of e else none

  -- The loop over the samples `i` to `i + n - 1`, of which it keeps the measured ones.
  unfoldable pub valid_measurements : Bool → (ℕ → Echo W) → ℕ → ℕ → List W
  valid_measurements ready echoes i zero = []
  valid_measurements ready echoes i (suc n) =
      present (measure_distance_once_in_centimeters ready (echoes i))
        (valid_measurements ready echoes (i + 1) n)

  unfoldable pub average : List W → Option W
  average [] = none
  average (d ∷ ds) =
      let valid : List W = d ∷ ds in
      if leb 3 (length valid)
      then get_elem? (sort valid) (length valid / 2)
      else some (f.div (f.sum valid) (of_ℕ (length valid)))

  unfoldable pub measure_distance_multiple_times_and_get_average :
      Bool → (ℕ → Echo W) → ℕ → Option W
  unfolding average
  measure_distance_multiple_times_and_get_average ready echoes sample_count =
      average (valid_measurements ready echoes 0 sample_count)

  unfoldable pub smooth : Option W → List W → List W × Option W
  smooth none recent = (recent, none)
  smooth (some d) recent =
      let ds = push distance_memory_size recent d in
      (ds, if leb 2 (length ds) then some (f.div (f.sum ds) (of_ℕ (length ds))) else some d)

  unfoldable pub get_stable_distance_using_history :
      Bool → (ℕ → Echo W) → List W → List W × Option W
  unfolding smooth
  get_stable_distance_using_history ready echoes recent =
      smooth (measure_distance_multiple_times_and_get_average ready echoes 3) recent

module _ {ℓ} {W : Type ℓ} where
  unfoldable pub reset_ultrasonic_memory : List W → List W
  reset_ultrasonic_memory recent = []
