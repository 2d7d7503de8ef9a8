-- ===== src/HighSchool/Samples.antt =====
-- The detection of a rotary in simple_car/ultra_simple_car_v3_improved.py. A ratio of two counts is
-- compared with a decimal by multiplying out, which agrees with the `float` division for the four
-- samples of a full list.
use adeept_awr.Common.{
  ℕ, ◌+◌, ◌-◌, ◌*◌, Bool, true, false, not, ◌&&◌, ◌||◌, Option, List, [], ◌∷◌, ◌++◌, Float, of_ℕ,
  if◌then◌else◌, ltb, leb, length, drop,
}
use adeept_awr.Hardware.{Gear}

pub data Line : Type 0 where
  left center right no_line : Line

pub record SimpleCar {ℓ} (W : Type ℓ) : Type ℓ where
  pub line_sensor : Bool
  pub motor : Option Gear
  pub ultrasonic : Bool
  pub line_samples : List Line
  pub rotary_mode : Bool
  pub rotary_start_time : W

abbrev pub rotary_check_samples : ℕ
rotary_check_samples = 4

abbrev pub same_line : Line → Line → Bool
same_line left left = true
same_line center center = true
same_line right right = true
same_line no_line no_line = true
same_line _ _ = false

abbrev pub is_turn : Line → Bool
is_turn left = true
is_turn right = true
is_turn _ = false

abbrev pub larger : ℕ → ℕ → ℕ
larger a b = if ltb b a then a else b

-- The loop over the pairs of neighbours, and the check after it: `run` samples in a row so far, and
-- `best` at most before.
unfoldable pub max_consecutive : Line → List Line → ℕ → ℕ → ℕ
max_consecutive last [] run best = larger run best
max_consecutive last (x ∷ xs) run best =
    let longer = max_consecutive x xs (run + 1) best in
    let anew = max_consecutive x xs 1 (larger run best) in
    if same_line x last && is_turn x then longer else anew

unfoldable pub longest_run : List Line → ℕ
unfolding max_consecutive
longest_run [] = 0
longest_run (x ∷ xs) = max_consecutive x xs 1 0

unfoldable pub non_center_count : List Line → ℕ
non_center_count [] = 0
non_center_count (x ∷ xs) = (if same_line x center then 0 else 1) + non_center_count xs

unfoldable pub changes : Line → List Line → ℕ
changes last [] = 0
changes last (x ∷ xs) = (if same_line x last then 0 else 1) + changes x xs

abbrev pub changes_in : List Line → ℕ
changes_in [] = 0
changes_in (x ∷ xs) = changes x xs

-- The three conditions: two in a row, a ratio of 0.7 off the centre, or one of 0.6 of changes.
unfoldable pub rotary_detected : List Line → Bool
unfolding longest_run non_center_count changes
rotary_detected xs =
    leb 2 (longest_run xs)
    || (leb (7 * length xs) (10 * non_center_count xs)
        || leb (6 * (length xs - 1)) (10 * changes_in xs))

unfoldable pub add_sample : Line → List Line → List Line
add_sample x xs =
    let ys : List Line = xs ++ (x ∷ []) in
    if ltb rotary_check_samples (length ys) then drop 1 ys else ys

module _ {ℓ} {W : Type ℓ} ⦃f : Float W⦄ where
  abbrev pub rotary_duration : W
  rotary_duration = of_ℕ 4

  -- What a full list of samples leads to.
  abbrev pub analyze : W → SimpleCar W → SimpleCar W × Bool
  analyze now s =
      if rotary_detected s.line_samples && not s.rotary_mode
      then (record s { rotary_mode = true; rotary_start_time = now; line_samples = [] }, true)
      else if s.rotary_mode && f.lt rotary_duration (f.sub now s.rotary_start_time)
      then (record s { rotary_mode = false; line_samples = [] }, false)
      else (s, s.rotary_mode)

  unfoldable pub check_rotary_improved : Line → W → SimpleCar W → SimpleCar W × Bool
  unfolding add_sample rotary_detected
  check_rotary_improved current_line now s =
      let s' = record s { line_samples = add_sample current_line s.line_samples } in
      if ltb (length s'.line_samples) rotary_check_samples then (s', false) else analyze now s'
