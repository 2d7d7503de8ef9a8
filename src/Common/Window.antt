-- ===== src/Common/Window.antt =====
-- A bounded buffer holds the last entries of all that was put into it.
use Prim.Native.Nat.{ℕ, zero, suc, ◌+◌, ◌-◌, ◌≤◌}
use mathlib.Core.Path.{◌≡◌, refl, ◌∙◌, ap, sym}
use mathlib.Core.List.{List, [], ◌∷◌, ◌++◌, append-nil, append_assoc}
use mathlib.Core.Bool.{true, false}
use native.Mathlib.Omega.{arith}
use native.Mathlib.Nat.{zero-add, suc-add}
use native.Mathlib.Decide.{dec_le}
use adeept_awr.Common.Tests.{ltb, leb, if◌then◌else◌}
use adeept_awr.Common.Lists.{length, drop, last_n, push, length-append, length-drop}

module _ {ℓ} {A : Type ℓ} where
  drop-append : (k : ℕ) (xs ys : List A) → k ≤ length xs → drop k xs ++ ys ≡ drop k (xs ++ ys)
  drop-append zero xs ys h = refl
  drop-append (suc k) [] ys h = elim h [ ]
  drop-append (suc k) (x ∷ xs) ys h = drop-append k xs ys (omega arith)

  drop-one : (k : ℕ) (xs : List A) → drop 1 (drop k xs) ≡ drop (suc k) xs
  drop-one zero xs = refl
  drop-one (suc k) [] = refl
  drop-one (suc k) (x ∷ xs) = drop-one k xs

  pub length-last_n : (n : ℕ) (xs : List A) → length (last_n n xs) ≤ n
  unfolding last_n
  length-last_n n xs = omega (arith, length-drop (length xs - n) xs)

  pub push-last_n :
      (n : ℕ) (xs : List A) (x : A) → push n (last_n n xs) x ≡ last_n n (xs ++ (x ∷ []))
  unfolding push last_n
  push-last_n n xs x =
      let k = length xs - n in
      let ys : List A = x ∷ [] in
      let appended = length-append xs ys in
      let joined = drop-append k xs ys (omega arith) in
      let size = length-append (drop k xs) ys in
      elim (dec_le n (length xs)) [
        | yes h ↦
            let e : length (xs ++ ys) - n ≡ suc k = omega arith in
            let full : ltb n (length (drop k xs ++ ys)) ≡ true = ground (arith, length-drop k xs) in
            rw (full, e, joined) (drop-one k (xs ++ ys))
        | no h ↦
            let e : length (xs ++ ys) - n ≡ k = omega arith in
            let room : ltb n (length (drop k xs ++ ys)) ≡ false =
              ground (arith, length-drop k xs) in
            rw (room, e, joined)
      ]

  -- The loop that puts a list of entries into a buffer of `n` places.
  unfoldable pub push_all : ℕ → List A → List A → List A
  push_all n ys [] = ys
  push_all n ys (x ∷ xs) = push_all n (push n ys x) xs

  pub push_all-last_n : (n : ℕ) (ys xs : List A) → push_all n (last_n n ys) xs ≡ last_n n (ys ++ xs)
  unfolding push_all
  push_all-last_n n ys [] = rw append-nil
  push_all-last_n n ys (x ∷ xs) =
      rw (push-last_n n ys x)
        (push_all-last_n n (ys ++ (x ∷ [])) xs ∙ ap (last_n n) (append_assoc ys (x ∷ []) xs))

  drop-nil : (k : ℕ) → drop {A = A} k [] ≡ []
  drop-nil zero = refl
  drop-nil (suc k) = refl

  -- A window that is at least as long as the tail of a list holds that tail.
  pub last_n-append :
      (k : ℕ) (xs ys : List A) → last_n (length ys + k) (xs ++ ys) ≡ last_n k xs ++ ys
  unfolding last_n
  last_n-append k xs ys =
      let e : length (xs ++ ys) - (length ys + k) ≡ length xs - k =
        omega (arith, length-append xs ys) in
      rw e (sym (drop-append (length xs - k) xs ys (omega arith)))

  drop-drop : (j k : ℕ) (xs : List A) → drop j (drop k xs) ≡ drop (k + j) xs
  drop-drop j zero xs = rw zero-add
  drop-drop zero (suc k) [] = sym (drop-nil (suc k + zero))
  drop-drop (suc j) (suc k) [] = sym (drop-nil (suc k + suc j))
  drop-drop j (suc k) (x ∷ xs) = rw (suc-add) (drop-drop j k xs)

  -- The last entries of a longer window.
  pub last_n-last_n : (j k : ℕ) (xs : List A) → j ≤ k → last_n j (last_n k xs) ≡ last_n j xs
  unfolding last_n
  last_n-last_n j k xs h =
      let n = length-drop (length xs - k) xs in
      drop-drop (length (drop (length xs - k) xs) - j) (length xs - k) xs
      ∙ ap (λ (t : ℕ). drop t xs) (omega arith)

-- The size of a buffer after one more entry.
pub length-push {ℓ} :
    {A : Type ℓ} (n : ℕ) (xs : List A) (x : A)
    → length (push n xs x) ≡ (if leb n (length xs) then length xs else suc (length xs))
unfolding push
length-push n xs x = ground (arith, length-append xs (x ∷ []), length-drop 1 (xs ++ (x ∷ [])))

pub length-push-le {ℓ} :
    {A : Type ℓ} (n : ℕ) (xs : List A) (x : A) → length xs ≤ n → length (push n xs x) ≤ n
length-push-le n xs x h = ground (arith, length-push n xs x)
