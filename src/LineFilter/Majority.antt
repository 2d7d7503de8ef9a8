-- ===== src/LineFilter/Majority.antt =====
-- The majority of the samples of one measurement.
use adeept_awr.Common.{
  ℕ, zero, suc, ◌+◌, ◌≤◌, ◌≡◌, Bool, true, false, List, [], ◌∷◌, Float, arith, length, count,
}
use adeept_awr.LineFilter.State.{PerSensor, to_tuple, multiple_sample_count}
use adeept_awr.LineFilter.Consistency.{differs}
use adeept_awr.LineFilter.Reading.{take_samples, is_majority, majority_reading}

-- How many samples are wrong about a sensor whose true value is `b`.
abbrev pub wrong : (PerSensor Bool → Bool) → Bool → List (PerSensor Bool) → ℕ
wrong sensor b = count (λ s. differs (sensor s) b)

wrong-true :
    (sensor : PerSensor Bool → Bool) (xs : List (PerSensor Bool))
    → wrong sensor true xs + count sensor xs ≡ length xs
wrong-true sensor [] = omega arith
wrong-true sensor (x ∷ xs) = ground (arith, wrong-true sensor xs)

wrong-false :
    (sensor : PerSensor Bool → Bool) (xs : List (PerSensor Bool))
    → wrong sensor false xs ≡ count sensor xs
wrong-false sensor [] = omega arith
wrong-false sensor (x ∷ xs) = ground (arith, wrong-false sensor xs)

majority-robust :
    (sensor : PerSensor Bool → Bool) (b : Bool) (xs : List (PerSensor Bool))
    → length xs ≡ multiple_sample_count
    → wrong sensor b xs ≤ 2
    → is_majority (count sensor xs) ≡ b
majority-robust sensor true xs n h = ground (arith, wrong-true sensor xs)
majority-robust sensor false xs n h = ground (arith, wrong-false sensor xs)

pub length-take_samples :
    (reads : ℕ → PerSensor Bool) (i n : ℕ) → length (take_samples reads i n) ≡ n
unfolding take_samples
length-take_samples reads i zero = omega arith
length-take_samples reads i (suc n) = omega (arith, length-take_samples reads (i + 1) n)

module _ {ℓ} {W : Type ℓ} ⦃f : Float W⦄ where
  -- If for each sensor at most two of the five samples are wrong, the values of the reading are the
  -- true ones.
  pub outvotes_noise :
      (truth : PerSensor Bool) (reads : ℕ → PerSensor Bool) (now : W)
      → let samples = take_samples reads 0 multiple_sample_count in
        wrong (λ s. s.left) truth.left samples ≤ 2
        → wrong (λ s. s.center) truth.center samples ≤ 2
        → wrong (λ s. s.right) truth.right samples ≤ 2
        → to_tuple (majority_reading samples now) ≡ (truth.left, truth.center, truth.right)
  unfolding to_tuple majority_reading
  outvotes_noise truth reads now l c r =
      let samples = take_samples reads 0 multiple_sample_count in
      let n = length-take_samples reads 0 multiple_sample_count in
      rw (
        majority-robust (λ s. s.left) truth.left samples n l,
        majority-robust (λ s. s.center) truth.center samples n c,
        majority-robust (λ s. s.right) truth.right samples n r,
      )
