-- ===== src/HighSchool/Easy/Counting.antt =====
-- When a rotary is detected.
use adeept_awr.Common.{
  ℕ, ◌+◌, ◌<◌, ◌≡◌, true, false, List, [], ◌∷◌, ◌++◌, Float, arith, if◌then◌else◌, leb, ap, ◌∙◌,
}
use adeept_awr.HighSchool.Samples.{Line, left, center, right, no_line, same_line}
use adeept_awr.HighSchool.Easy.Rotary.{EasyCar, check_rotary}

pub line-eq : (x y : Line) → same_line x y ≡ true → x ≡ y
line-eq left y h = ground arith
line-eq center y h = ground arith
line-eq right y h = ground arith
line-eq no_line y h = ground arith

module _ {ℓ} {W : Type ℓ} where
  -- How often the line differs from the one before, from `last` on, at whatever times.
  unfoldable pub changes : Line → List (Line × W) → ℕ
  changes last [] = 0
  changes last ((x, now) ∷ cs) = (if same_line x last then 0 else 1) + changes x cs

module _ {ℓ} {W : Type ℓ} ⦃f : Float W⦄ where
  -- The calls of `check_rotary`, one after the other.
  unfoldable pub calls : List (Line × W) → EasyCar W → EasyCar W
  unfolding check_rotary
  calls [] s = s
  calls ((x, now) ∷ cs) s = calls cs (check_rotary x now s).0

  record Counts (x : Line) (s t : EasyCar W) : Type ℓ where
    mode : t.rotary_mode ≡ false
    count :
        t.line_change_count
        ≡ s.line_change_count + (if same_line x s.last_line_position then 0 else 1)
    last : t.last_line_position ≡ x

  check-Counts :
      (x : Line) (now : W) (s : EasyCar W)
      → s.rotary_mode ≡ false
      → s.line_change_count + (if same_line x s.last_line_position then 0 else 1) < 5
      → Counts x s (check_rotary x now s).0
  unfolding check_rotary
  check-Counts x now s m h = ground (arith, line-eq x s.last_line_position)

  check-answer :
      (x : Line) (now : W) (s : EasyCar W)
      → s.rotary_mode ≡ false
      → (check_rotary x now s).1
        ≡ leb 5 (s.line_change_count + (if same_line x s.last_line_position then 0 else 1))
  unfolding check_rotary
  check-answer x now s m = ground arith

  -- Outside the rotary mode, and before five changes of the line are counted: a call answers that the
  -- car is in a rotary exactly if it makes the changes since the last rotary five, of which the calls
  -- before it count each one, however long ago it was.
  pub detects_at_five :
      (cs : List (Line × W)) (x : Line) (now : W) (s : EasyCar W)
      → s.rotary_mode ≡ false
      → s.line_change_count + changes s.last_line_position cs < 5
      → (check_rotary x now (calls cs s)).1
        ≡ leb 5 (s.line_change_count + changes s.last_line_position (cs ++ ((x, now) ∷ [])))
  unfolding calls changes
  detects_at_five [] x now s m h = rw (check-answer x now s m) ground arith
  detects_at_five ((y, t) ∷ cs) x now s m h =
      let c = check-Counts y t s m (omega (arith, h)) in
      let here : (l : List (Line × W))
          → changes (check_rotary y t s).0.last_line_position l ≡ changes y l =
        λ l. ap (λ z. changes z l) c.last in
      detects_at_five cs x now (check_rotary y t s).0 c.mode (omega (arith, h, c.count, here cs))
      ∙ ap (leb 5) (omega (arith, c.count, here (cs ++ ((x, now) ∷ []))))
