-- ===== src/Ultrasonic/Average.antt =====
-- The middle of several measurements.
use adeept_awr.Common.{
  ℕ, zero, suc, ◌+◌, ◌/◌, ◌≤◌, ◌<◌, ◌≡◌, refl, Bool, true, false, ◌&&◌, inl, inr, Bool-cases, some,
  List, [], ◌∷◌, Float, of_ℕ, arith, leb, All, length, get_elem?, insert, sort,
}
use adeept_awr.Ultrasonic.Echo.{
  Echo, timed_out, failed, pulse, present, measure_distance_once_in_centimeters, valid_measurements,
  average, measure_distance_multiple_times_and_get_average,
}

module _ {ℓ} {W : Type ℓ} ⦃f : Float W⦄ where
  insert-length : (x : W) (xs : List W) → length (insert x xs) ≡ suc (length xs)
  unfolding insert
  insert-length x [] = refl
  insert-length x (y ∷ ys) = ground (arith, insert-length x ys)

  sort-length : (xs : List W) → length (sort xs) ≡ length xs
  unfolding sort
  sort-length [] = refl
  sort-length (x ∷ xs) = omega (arith, insert-length x (sort xs), sort-length xs)

  module _ {κ} (P : W → Type κ) where
    insert-All : (x : W) (xs : List W) → P x → All P xs → All P (insert x xs)
    unfolding insert
    insert-All x [] h hs = (h, tt)
    insert-All x (y ∷ ys) h (k, ks) = elim (Bool-cases (f.lt y x)) [
      | inl e ↦ rw e (k, insert-All x ys h ks)
      | inr e ↦ rw e (h, (k, ks))
    ]

    sort-All : (xs : List W) → All P xs → All P (sort xs)
    unfolding sort
    sort-All [] h = tt
    sort-All (x ∷ xs) (h, hs) = insert-All x (sort xs) h (sort-All xs hs)

    get_elem?-All :
        (i : ℕ) (xs : List W) → All P xs → i < length xs → (d : W) × (get_elem? xs i ≡ some d) × P d
    get_elem?-All i [] h k = elim k [ ]
    get_elem?-All zero (x ∷ xs) (h, hs) k = (x, refl, h)
    get_elem?-All (suc i) (x ∷ xs) (h, hs) k = get_elem?-All i xs hs (omega arith)

  abbrev pub is_measurable : W → Bool
  is_measurable d = f.le (of_ℕ 2) d && f.le d (of_ℕ 300)

  once-measurable :
      (ready : Bool) (e : Echo W) (ds : List W)
      → All (λ d. is_measurable d ≡ true) ds
      → All
          (λ d. is_measurable d ≡ true)
          (present (measure_distance_once_in_centimeters ready e) ds)
  unfolding measure_distance_once_in_centimeters
  once-measurable false e ds h = h
  once-measurable true timed_out ds h = h
  once-measurable true failed ds h = h
  once-measurable true (pulse t) ds h =
      let d = f.div (f.mul t (of_ℕ 34000)) (of_ℕ 2) in
      elim (Bool-cases (is_measurable d)) [ inl e ↦ rw e (e, h) | inr e ↦ rw e h ]

  valid-measurable :
      (ready : Bool) (echoes : ℕ → Echo W) (i n : ℕ)
      → All (λ d. is_measurable d ≡ true) (valid_measurements ready echoes i n)
  unfolding valid_measurements
  valid-measurable ready echoes i zero = tt
  valid-measurable ready echoes i (suc n) =
      once-measurable ready (echoes i) (valid_measurements ready echoes (i + 1) n)
        (valid-measurable ready echoes (i + 1) n)

  average-All {κ} :
      (P : W → Type κ) (xs : List W)
      → 3 ≤ length xs
      → All P xs
      → (d : W) × (average xs ≡ some d) × P d
  unfolding average
  average-All P [] n h = elim n [ ]
  average-All P (x ∷ xs) n h =
      let ys : List W = x ∷ xs in
      let e : leb 3 (length ys) ≡ true = ground arith in
      rw e (
        get_elem?-All P (length ys / 2) (sort ys) (sort-All P ys h) (omega (arith, sort-length ys)))

  -- If at least three of the pulses are measured, the middle one of the distances is returned, and
  -- it is from 2 to 300 cm, as each of them.
  pub average-measurable :
      (ready : Bool) (echoes : ℕ → Echo W) (sample_count : ℕ)
      → 3 ≤ length (valid_measurements ready echoes 0 sample_count)
      → (d : W) × (measure_distance_multiple_times_and_get_average ready echoes sample_count
          ≡ some d)
        × (is_measurable d ≡ true)
  unfolding measure_distance_multiple_times_and_get_average
  average-measurable ready echoes sample_count n =
      average-All (λ d. is_measurable d ≡ true) (valid_measurements ready echoes 0 sample_count) n
        (valid-measurable ready echoes 0 sample_count)
