-- ===== src/Common/Floats.antt =====
-- Python's `float`: a type with the operations that the program applies to it.  No law is part of
-- the record, so what is proved over it holds for every rounding and for NaN.
use Prim.Native.Nat.{ℕ, ◌+◌, ◌-◌, ◌*◌, ◌/◌}
use mathlib.Core.Bool.{Bool, false}
use mathlib.Core.List.{List, [], ◌∷◌}
use adeept_awr.Common.Lists.{length}
use adeept_awr.Common.Tests.{ltb, leb, ◌==◌}

pub record Float {ℓ} (W : Type ℓ) : Type ℓ where
  -- `lit n k` is the literal for n / k, so `lit 15 100` is 0.15 and `lit 8 1` is 8 or 8.0
  pub lit : ℕ → ℕ → W
  pub add : W → W → W
  pub sub : W → W → W
  pub mul : W → W → W
  pub div : W → W → W
  pub abs : W → W
  pub lt : W → W → Bool
  pub le : W → W → Bool
  pub eq : W → W → Bool
  -- equal to `inf` or `-inf`
  pub is_infinite : W → Bool
  -- `sum`, and `mean` and `stdev` of the module `statistics`
  pub sum : List W → W
  pub mean : List W → W
  pub stdev : List W → W

-- An integer that is converted to `float`.
abbrev pub of_ℕ {ℓ} : {W : Type ℓ} ⦃f : Float W⦄ → ℕ → W
of_ℕ ⦃f⦄ n = f.lit n 1

abbrev total : List ℕ → ℕ
total [] = 0
total (x ∷ xs) = x + total xs

-- The sum of the distances to `m`, which stands in for the root of the sum of their squares.
abbrev spread : ℕ → List ℕ → ℕ
spread m [] = 0
spread m (x ∷ xs) = ((x - m) + (m - x)) + spread m xs

-- Thousandths, rounded down, for tests and witnesses.
instance abbrev pub fixed_float : Float ℕ
fixed_float = record {
  lit = λ n k. n * 1000 / k;
  add = λ a b. a + b;
  sub = λ a b. a - b;
  mul = λ a b. a * b / 1000;
  div = λ a b. a * 1000 / b;
  abs = λ a. a;
  lt = ltb;
  le = leb;
  eq = λ a b. a == b;
  is_infinite = λ a. false;
  sum = total;
  mean = λ xs. total xs / length xs;
  stdev = λ xs. spread (total xs / length xs) xs / (length xs - 1);
}
