-- ===== src/HighSchool/Course.antt =====
-- A whole drive of the car: its wheels, its samples, and its end.
use adeept_awr.Common.{
  ◌≤◌, ◌≡◌, refl, Bool, true, false, List, [], ◌∷◌, ◌++◌, Float, of_ℕ, Answer, gives, raises, arith,
  if◌then◌else◌, ltb, length, length-append, length-drop,
}
use adeept_awr.Hardware.{IsDriven, speeds-IsDriven}
use adeept_awr.HighSchool.Samples.{
  Line, left, center, right, no_line, SimpleCar, add_sample, analyze, check_rotary_improved,
}
use adeept_awr.HighSchool.Drive.{
  Input, read_line, go_forward, turn_left, turn_right, avoid_obstacle, drive_rotary, drive_line,
  read_distance, drive_on, drive_at, smart_drive, continue_with, car_of, drive_rounds,
}

module _ {ℓ} {W : Type ℓ} where
  -- At most one wheel goes backward, and the list of samples has four entries at most.
  pub record IsSound (s : SimpleCar W) : Type ℓ where
    pub driven : IsDriven 100 s.motor
    pub samples : length s.line_samples ≤ 4

  rotary-IsDriven : (x : Line) (s : SimpleCar W) → IsDriven 100 (drive_rotary x s).motor
  unfolding go_forward
  rotary-IsDriven center s = speeds-IsDriven _ _ s.motor refl (omega arith) (omega arith)
  rotary-IsDriven left s = speeds-IsDriven _ _ s.motor refl (omega arith) (omega arith)
  rotary-IsDriven right s = speeds-IsDriven _ _ s.motor refl (omega arith) (omega arith)
  rotary-IsDriven no_line s = speeds-IsDriven _ _ s.motor refl (omega arith) (omega arith)

  line-IsDriven : (x : Line) (s : SimpleCar W) → IsDriven 100 (drive_line x s).motor
  unfolding go_forward turn_left turn_right
  line-IsDriven center s = speeds-IsDriven _ _ s.motor refl (omega arith) (omega arith)
  line-IsDriven left s = speeds-IsDriven _ _ s.motor refl (omega arith) (omega arith)
  line-IsDriven right s = speeds-IsDriven _ _ s.motor refl (omega arith) (omega arith)
  line-IsDriven no_line s = speeds-IsDriven _ _ s.motor refl (omega arith) (omega arith)

  drive-samples :
      (b : Bool) (x : Line) (s : SimpleCar W)
      → (if b then drive_rotary x s else drive_line x s).line_samples ≡ s.line_samples
  unfolding go_forward turn_left turn_right
  drive-samples b x s = ground arith

  drive-IsDriven :
      (b : Bool) (x : Line) (s : SimpleCar W)
      → IsDriven 100 (if b then drive_rotary x s else drive_line x s).motor
  drive-IsDriven true x s = rotary-IsDriven x s
  drive-IsDriven false x s = line-IsDriven x s

length-add_sample : (x : Line) (xs : List Line) → length xs ≤ 4 → length (add_sample x xs) ≤ 4
unfolding add_sample
length-add_sample x xs h = ground (arith, length-append xs (x ∷ []), length-drop 1 (xs ++ (x ∷ [])))

module _ {ℓ} {W : Type ℓ} ⦃f : Float W⦄ where
  analyze-samples :
      (now : W) (s : SimpleCar W)
      → length s.line_samples ≤ 4
      → length (analyze now s).0.line_samples ≤ 4
  analyze-samples now s h = ground arith

  check-samples :
      (x : Line) (now : W) (s : SimpleCar W)
      → length s.line_samples ≤ 4
      → length (check_rotary_improved x now s).0.line_samples ≤ 4
  unfolding check_rotary_improved
  check-samples x now s h =
      let s' = record s { line_samples = add_sample x s.line_samples } in
      let k = length-add_sample x s.line_samples h in by_size (ltb (length s'.line_samples) 4) s' k
    where
      by_size :
          (few : Bool) (s' : SimpleCar W)
          → length s'.line_samples ≤ 4
          → length (if few then (s', false) else analyze now s').0.line_samples ≤ 4
      by_size true s' h = h
      by_size false s' h = analyze-samples now s' h

  drive_on-IsSound :
      (now : W) (a : Answer Line) (s : SimpleCar W)
      → IsSound s
      → IsSound (car_of (drive_on now a s) s)
  drive_on-IsSound now raises s h = h
  drive_on-IsSound now (gives x) s h =
      let (s', b) = check_rotary_improved x now s in
      let k = check-samples x now s h.samples in
      record { driven = drive-IsDriven b x s'; samples = rw (drive-samples b x s') k }

  avoid-IsSound : (s : SimpleCar W) → IsSound s → IsSound (avoid_obstacle s)
  unfolding avoid_obstacle turn_left go_forward turn_right
  avoid-IsSound s h = record {
    driven = speeds-IsDriven _ _ _ refl (omega arith) (omega arith);
    samples = h.samples;
  }

  drive_at-IsSound :
      (a : Answer W) (i : Input W) (s : SimpleCar W)
      → IsSound s
      → IsSound (car_of (drive_at a i s) s)
  drive_at-IsSound raises i s h = h
  drive_at-IsSound (gives d) i s h = by_test (f.lt d (of_ℕ 15))
    where
      by_test :
          (b : Bool)
          → IsSound
              (car_of (if b then gives (avoid_obstacle s) else drive_on i.now (read_line i s) s) s)
      by_test true = avoid-IsSound s h
      by_test false = drive_on-IsSound i.now (read_line i s) s h

  round-IsSound : (i : Input W) (s : SimpleCar W) → IsSound s → IsSound (car_of (smart_drive i s) s)
  unfolding smart_drive
  round-IsSound i s h = drive_at-IsSound (read_distance i s) i s h

  continue-IsSound :
      (r : Answer (SimpleCar W)) (s t : SimpleCar W)
      → IsSound s
      → IsSound t
      → IsSound (continue_with r s t)
  continue-IsSound (gives u) s t h k = k
  continue-IsSound raises s t h k = h

  -- Over any rounds of the loop, from a sound state, and whatever the sensors show: after the drive
  -- at most one of the wheels goes backward, neither is driven at more than 100 percent, and the
  -- list of samples has four entries at most.
  pub rounds-IsSound :
      (is : List (Input W)) (s : SimpleCar W) → IsSound s → IsSound (drive_rounds is s)
  unfolding drive_rounds
  rounds-IsSound [] s h = h
  rounds-IsSound (i ∷ is) s h =
      let r = smart_drive i s in
      continue-IsSound r s (drive_rounds is (car_of r s)) h
        (rounds-IsSound is (car_of r s) (round-IsSound i s h))
