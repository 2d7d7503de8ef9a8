-- ===== src/Hardware/Patterns.antt =====
-- The positions of the line sensor: its three bits from the pattern, and left against right.
use adeept_awr.Common.{ℕ, ◌/◌, ◌%◌, ◌≡◌, refl, Bool, true, false, Option, none, some, ◌==◌, ℤ, neg}
use adeept_awr.Hardware.LineSensor.{
  Levels, pattern_of, position_map, get_line_position, get_simple_position,
}

abbrev pub levels : Bool → Bool → Bool → Levels
levels l m r = record { left = l; middle = m; right = r }

-- The eight readings, in the order of their patterns.
pub each_levels {ℓ} :
    (P : Levels → Type ℓ)
    → P (levels false false false)
    → P (levels false false true)
    → P (levels false true false)
    → P (levels false true true)
    → P (levels true false false)
    → P (levels true false true)
    → P (levels true true false)
    → P (levels true true true)
    → (s : Levels) → P s
each_levels P a b c d e f g h s = by_bits s.left s.middle s.right
  where
    by_bits : (l m r : Bool) → P (levels l m r)
    by_bits false false false = a
    by_bits false false true = b
    by_bits false true false = c
    by_bits false true true = d
    by_bits true false false = e
    by_bits true false true = f
    by_bits true true false = g
    by_bits true true true = h

-- The three bits of a pattern.
abbrev pub levels_of : ℕ → Levels
levels_of p = levels (p / 4 == 1) (p / 2 % 2 == 1) (p % 2 == 1)

-- The levels of the three sensors can be read back from the pattern that they are packed into, so
-- no two readings share an entry of the table of positions by accident.
pub levels_of-pattern_of : (s : Levels) → levels_of (pattern_of s) ≡ s
unfolding pattern_of
levels_of-pattern_of s =
    each_levels (λ t. levels_of (pattern_of t) ≡ t) refl refl refl refl refl refl refl refl s

abbrev pub mirrored : Levels → Levels
mirrored s = levels s.right s.middle s.left

abbrev pub opposite : Option ℤ → Option ℤ
opposite none = none
opposite (some p) = some (neg p)

-- With left and right exchanged, the position changes its sign, and so does the simple one; a line
-- that is not seen stays so.
pub position-mirrored :
    (s : Levels)
    → (get_line_position (mirrored s) ≡ opposite (get_line_position s))
      × (get_simple_position (mirrored s) ≡ opposite (get_simple_position s))
unfolding get_line_position get_simple_position pattern_of position_map
position-mirrored s =
    each_levels
      (λ t.
        (get_line_position (mirrored t) ≡ opposite (get_line_position t))
        × (get_simple_position (mirrored t) ≡ opposite (get_simple_position t)))
      (refl, refl) (refl, refl) (refl, refl) (refl, refl) (refl, refl) (refl, refl) (refl, refl)
      (refl, refl) s
