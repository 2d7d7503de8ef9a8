-- ===== src/HighSchool/Easy/Reentry.antt =====
-- A rotary that is found again.
use adeept_awr.Common.{
  ℕ, ◌+◌, ◌≤◌, ◌≡◌, refl, Bool, true, false, List, [], ◌∷◌, Float, arith, if◌then◌else◌, ap, ◌∙◌,
  not, ◌&&◌,
}
use adeept_awr.HighSchool.Samples.{Line, same_line}
use adeept_awr.HighSchool.Easy.Rotary.{EasyCar, check_rotary, is_over}
use adeept_awr.HighSchool.Easy.Counting.{changes, calls, line-eq}

module _ {ℓ} {W : Type ℓ} ⦃f : Float W⦄ where
  -- Each of the calls is within the time of the rotary.
  unfoldable pub is_within : W → List (Line × W) → Bool
  is_within start [] = true
  is_within start ((x, now) ∷ cs) = not (is_over start now) && is_within start cs

  record InRotary (n : ℕ) (x : Line) (s t : EasyCar W) : Type ℓ where
    mode : t.rotary_mode ≡ true
    start : t.rotary_start_time ≡ s.rotary_start_time
    count : t.line_change_count ≡ s.line_change_count + n
    last : t.last_line_position ≡ x

  check-InRotary :
      (x : Line) (now : W) (s : EasyCar W)
      → s.rotary_mode ≡ true
      → is_over s.rotary_start_time now ≡ false
      → InRotary (if same_line x s.last_line_position then 0 else 1) x s (check_rotary x now s).0
  unfolding check_rotary
  check-InRotary x now s m h = ground (arith, line-eq x s.last_line_position)

  leaves :
      (x : Line) (now : W) (s : EasyCar W)
      → s.rotary_mode ≡ true
      → is_over s.rotary_start_time now ≡ true
      → let (t, answer) = check_rotary x now s in
        (answer ≡ false) × ((t.rotary_mode ≡ false) × (s.line_change_count ≤ t.line_change_count))
  unfolding check_rotary
  leaves x now s m h = ground arith

  found :
      (x : Line) (now : W) (s : EasyCar W)
      → s.rotary_mode ≡ false
      → 5 ≤ s.line_change_count
      → (check_rotary x now s).1 ≡ true
  unfolding check_rotary
  found x now s m h = ground arith

  within-split :
      (x : Line) (now : W) (s : EasyCar W) (cs : List (Line × W))
      → is_within s.rotary_start_time ((x, now) ∷ cs) ≡ true
      → (is_over s.rotary_start_time now ≡ false) × (is_within s.rotary_start_time cs ≡ true)
  unfolding is_within
  within-split x now s cs h = ground arith

  calls-count :
      (cs : List (Line × W)) (s : EasyCar W)
      → s.rotary_mode ≡ true
      → is_within s.rotary_start_time cs ≡ true
      → ((calls cs s).rotary_mode ≡ true)
        × (((calls cs s).rotary_start_time ≡ s.rotary_start_time)
            × ((calls cs s).line_change_count
                ≡ s.line_change_count + changes s.last_line_position cs))
  unfolding calls changes is_within
  calls-count [] s m h = (m, (refl, omega arith))
  calls-count ((x, now) ∷ cs) s m h =
      let (inside, later) = within-split x now s cs h in
      let t = (check_rotary x now s).0 in
      let c = check-InRotary x now s m inside in
      let here : changes t.last_line_position cs ≡ changes x cs = ap (λ z. changes z cs) c.last in
      let (mode, (start, count)) = calls-count cs t c.mode (rw c.start later) in
      (mode, (start ∙ c.start, omega (arith, count, c.count, here)))

  -- A call that leaves the rotary mode after five changes of the line or more within it, all in the
  -- time of the rotary: the next call finds the rotary again, whatever the line is and at whatever
  -- time.
  pub rotary_found_again :
      (cs : List (Line × W)) (x y : Line) (now later : W) (s : EasyCar W)
      → s.rotary_mode ≡ true
      → is_within s.rotary_start_time cs ≡ true
      → 5 ≤ s.line_change_count + changes s.last_line_position cs
      → is_over s.rotary_start_time now ≡ true
      → let (t, answer) = check_rotary x now (calls cs s) in
        (answer ≡ false) × ((check_rotary y later t).1 ≡ true)
  rotary_found_again cs x y now later s m h n o =
      let (mode, (start, count)) = calls-count cs s m h in
      let (answer, (off, kept)) = leaves x now (calls cs s) mode (rw start o) in
      (
        answer,
        found y later (check_rotary x now (calls cs s)).0 off (omega (arith, n, count, kept)),
      )
