-- ===== src/Common/Lists.antt =====
-- Lists measured by the native numbers, and the bounded buffers of the program.
use Prim.Native.Nat.{ℕ, zero, suc, ◌+◌, ◌-◌}
use mathlib.Core.Path.{◌≡◌, refl}
use mathlib.Core.Bool.{Bool}
use mathlib.Core.List.{List, [], ◌∷◌, ◌++◌, reverse}
use mathlib.Core.Option.{Option, none, some}
use native.Mathlib.Omega.{arith}
use adeept_awr.Common.Tests.{ltb, if◌then◌else◌}

module _ {ℓ} {A : Type ℓ} where
  abbrev pub length : List A → ℕ
  length [] = 0
  length (x ∷ xs) = suc (length xs)

  abbrev pub get_elem? : List A → ℕ → Option A
  get_elem? [] i = none
  get_elem? (x ∷ xs) zero = some x
  get_elem? (x ∷ xs) (suc i) = get_elem? xs i

  abbrev pub drop : ℕ → List A → List A
  drop zero xs = xs
  drop (suc n) [] = []
  drop (suc n) (x ∷ xs) = drop n xs

  -- `sum(1 for x in xs if p(x))`
  abbrev pub count : (A → Bool) → List A → ℕ
  count p [] = 0
  count p (x ∷ xs) = (if p x then 1 else 0) + count p xs

  abbrev pub All {κ} : (A → Type κ) → List A → Type κ
  All P [] = Unit
  All P (x ∷ xs) = P x × All P xs

module _ {ℓ} {A : Type ℓ} where
  -- `xs[-n:]`, for n above 0
  unfoldable pub last_n : ℕ → List A → List A
  last_n n xs = drop (length xs - n) xs

  -- `xs[-1 - i]`
  unfoldable pub from_end : List A → ℕ → Option A
  from_end xs i = get_elem? (reverse xs) i

  -- `xs.append(x)`, and `xs.pop(0)` if `len(xs)` is then above `n`; also `append` on a
  -- `deque(maxlen=n)` with n above 0
  unfoldable pub push : ℕ → List A → A → List A
  push n xs x = let ys = xs ++ (x ∷ []) in if ltb n (length ys) then drop 1 ys else ys

  pub length-append : (xs ys : List A) → length (xs ++ ys) ≡ length xs + length ys
  length-append [] ys = omega arith
  length-append (x ∷ xs) ys = omega (arith, length-append xs ys)

  pub length-drop : (n : ℕ) (xs : List A) → length (drop n xs) ≡ length xs - n
  length-drop zero xs = omega arith
  length-drop (suc n) [] = omega arith
  length-drop (suc n) (x ∷ xs) = omega (arith, length-drop n xs)

abbrev pub set_elem {ℓ} : {A : Type ℓ} → List A → ℕ → A → List A
set_elem [] k a = []
set_elem (x ∷ xs) zero a = a ∷ xs
set_elem (x ∷ xs) (suc k) a = x ∷ set_elem xs k a

pub get_elem?-set_elem {ℓ} :
    {A : Type ℓ} (xs : List A) (k : ℕ) (a b : A)
    → get_elem? xs k ≡ some a
    → get_elem? (set_elem xs k b) k ≡ some b
get_elem?-set_elem [] k a b h = cc
get_elem?-set_elem (x ∷ xs) zero a b h = refl
get_elem?-set_elem (x ∷ xs) (suc k) a b h = get_elem?-set_elem xs k a b h
