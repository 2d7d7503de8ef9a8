-- ===== src/Common/Signed.antt =====
-- The signed integers of the programs that command a wheel with one number: `pos n` is n, and
-- `negsuc n` is -(n + 1). Python's integers are unbounded.
use Prim.Native.Nat.{ℕ, zero, suc, ◌+◌, ◌-◌, ◌*◌, ◌/◌}
use mathlib.Core.Path.{◌≡◌, refl}
use mathlib.Core.Bool.{Bool, true, false}
use adeept_awr.Common.Tests.{ltb, leb, if◌then◌else◌}

pub data ℤ : Type 0 where
  pos negsuc : ℕ → ℤ

abbrev pub minus : ℕ → ℤ
minus zero = pos zero
minus (suc n) = negsuc n

abbrev pub neg : ℤ → ℤ
neg (pos n) = minus n
neg (negsuc n) = pos (suc n)

abbrev pub magnitude : ℤ → ℕ
magnitude (pos n) = n
magnitude (negsuc n) = suc n

abbrev pub is_negative : ℤ → Bool
is_negative (pos n) = false
is_negative (negsuc n) = true

abbrev pub is_zero : ℤ → Bool
is_zero (pos zero) = true
is_zero (pos (suc n)) = false
is_zero (negsuc n) = false

-- With the sign of the first number, and the size of the second.
abbrev pub signed : ℤ → ℕ → ℤ
signed (pos m) n = pos n
signed (negsuc m) n = minus n

-- `int(v * r)` for a ratio `r` of so many tenths: it rounds towards 0
abbrev pub scaled : ℕ → ℤ → ℤ
scaled tenths v = signed v (magnitude v * tenths / 10)

-- `max(-100, min(100, v))`
abbrev pub clamp_percent : ℤ → ℤ
clamp_percent v = signed v (if ltb 100 (magnitude v) then 100 else magnitude v)

pub neg-neg : (v : ℤ) → neg (neg v) ≡ v
neg-neg (pos zero) = refl
neg-neg (pos (suc n)) = refl
neg-neg (negsuc n) = refl

pub magnitude-neg : (v : ℤ) → magnitude (neg v) ≡ magnitude v
magnitude-neg (pos zero) = refl
magnitude-neg (pos (suc n)) = refl
magnitude-neg (negsuc n) = refl

pub neg-signed : (v : ℤ) (n : ℕ) → is_zero v ≡ false → neg (signed v n) ≡ signed (neg v) n
neg-signed (pos (suc m)) zero h = refl
neg-signed (pos (suc m)) (suc n) h = refl
neg-signed (negsuc m) zero h = refl
neg-signed (negsuc m) (suc n) h = refl
neg-signed (pos zero) n h = cc

infix 50 ◌≤ℤ◌
abbrev pub ◌≤ℤ◌ : ℤ → ℤ → Bool
pos m ≤ℤ pos n = leb m n
pos m ≤ℤ negsuc n = false
negsuc m ≤ℤ pos n = true
negsuc m ≤ℤ negsuc n = leb n m

-- m - n, for whole numbers
abbrev pub difference : ℕ → ℕ → ℤ
difference m n = if leb n m then pos (m - n) else minus (n - m)

abbrev pub plus : ℤ → ℤ → ℤ
plus (pos m) (pos n) = pos (m + n)
plus (pos m) (negsuc n) = difference m (suc n)
plus (negsuc m) (pos n) = difference n (suc m)
plus (negsuc m) (negsuc n) = negsuc (suc (m + n))

-- `max(low, min(high, v))`
abbrev pub limited : ℤ → ℤ → ℤ → ℤ
limited low high v = let w = if v ≤ℤ high then v else high in if low ≤ℤ w then w else low
