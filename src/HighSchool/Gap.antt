-- ===== src/HighSchool/Gap.antt =====
-- What happens to the rotary mode after a rotary was detected.
use adeept_awr.Common.{
  ◌<◌, ◌≡◌, refl, Bool, true, false, List, [], ◌∷◌, ◌++◌, Float, arith, if◌then◌else◌, ltb, length,
  length-append,
}
use adeept_awr.HighSchool.Samples.{Line, SimpleCar, add_sample, analyze, check_rotary_improved}

module _ {ℓ} {W : Type ℓ} ⦃f : Float W⦄ where
  -- The rotary is detected, with an empty list of samples.
  record Detected (now : W) (s : SimpleCar W) : Type ℓ where
    mode : s.rotary_mode ≡ true
    start : s.rotary_start_time ≡ now
    no_samples : s.line_samples ≡ []

  analyze-Detected :
      (now : W) (s : SimpleCar W)
      → s.rotary_mode ≡ false
      → (analyze now s).1 ≡ true
      → Detected now (analyze now s).0
  analyze-Detected now s m h = ground arith

  few_samples :
      (x : Line) (now : W) (s : SimpleCar W)
      → length s.line_samples < 3
      → check_rotary_improved x now s
        ≡ (record s { line_samples = s.line_samples ++ (x ∷ []) }, false)
  unfolding check_rotary_improved add_sample
  few_samples x now s h =
      let ys : List Line = s.line_samples ++ (x ∷ []) in
      let n = length-append s.line_samples (x ∷ []) in
      let room : ltb 4 (length ys) ≡ false = ground (arith, n) in
      let few : ltb (length ys) 4 ≡ true = ground (arith, n) in simp (room, few)

  check-Detected :
      (x : Line) (now : W) (s : SimpleCar W)
      → s.rotary_mode ≡ false
      → (check_rotary_improved x now s).1 ≡ true
      → Detected now (check_rotary_improved x now s).0
  unfolding check_rotary_improved
  check-Detected x now s m h =
      let s' = record s { line_samples = add_sample x s.line_samples } in
      by_size (ltb (length s'.line_samples) 4) s' m h
    where
      by_size :
          (few : Bool) (s' : SimpleCar W)
          → s'.rotary_mode ≡ false
          → (if few then (s', false) else analyze now s').1 ≡ true
          → Detected now (if few then (s', false) else analyze now s').0
      by_size true s' m h = cc
      by_size false s' m h = analyze-Detected now s' m h

  -- The mode and the answers of three calls in a row.
  abbrev pub Ignores : Line → Line → Line → W → W → W → SimpleCar W → Type 0
  Ignores a b c t u v s =
      let (s₁, r₁) = check_rotary_improved a t s in
      let (s₂, r₂) = check_rotary_improved b u s₁ in
      let (s₃, r₃) = check_rotary_improved c v s₂ in
      (s₃.rotary_mode ≡ s.rotary_mode) × ((r₁ ≡ false) × ((r₂ ≡ false) × (r₃ ≡ false)))

  empty-Ignores :
      (a b c : Line) (t u v : W) (s : SimpleCar W) → s.line_samples ≡ [] → Ignores a b c t u v s
  empty-Ignores a b c t u v s h =
      let with_samples : List Line → SimpleCar W = λ xs. record s { line_samples = xs } in
      let size : length s.line_samples ≡ 0 = rw h in
      let xs : List Line = s.line_samples ++ (a ∷ []) in
      let ys : List Line = xs ++ (b ∷ []) in
      let n = length-append s.line_samples (a ∷ []) in
      let m = length-append xs (b ∷ []) in
      let first = few_samples a t s (omega (arith, size)) in
      let second = few_samples b u (with_samples xs) (omega (arith, size, n)) in
      let third = few_samples c v (with_samples ys) (omega (arith, size, n, m)) in
      rw (first, second, third) (refl, (refl, (refl, refl)))

  -- A rotary that is detected outside the rotary mode empties the samples: the next three calls, with
  -- whatever line and at whatever time, answer that there is no rotary, and the mode stays on
  -- meanwhile. So the car goes back to its full speed for three rounds right after the detection.
  pub rotary_gap :
      (x a b c : Line) (now t u v : W) (s : SimpleCar W)
      → s.rotary_mode ≡ false
      → (check_rotary_improved x now s).1 ≡ true
      → ((check_rotary_improved x now s).0.rotary_mode ≡ true)
        × Ignores a b c t u v (check_rotary_improved x now s).0
  rotary_gap x a b c now t u v s m h =
      let d = check-Detected x now s m h in
      (d.mode, empty-Ignores a b c t u v (check_rotary_improved x now s).0 d.no_samples)
