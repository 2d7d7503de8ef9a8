-- ===== src/HighSchool/Calm.antt =====
-- Which four samples are no rotary.
use adeept_awr.Common.{◌≡◌, refl, Bool, true, false, not, ◌&&◌, [], ◌∷◌}
use adeept_awr.HighSchool.Samples.{
  Line, left, center, right, no_line, max_consecutive, longest_run, non_center_count, changes,
  rotary_detected,
}

-- The course of an ordinary road, in four samples: the centre throughout, but for the first sample or
-- for the last one, or but for a gap of two samples at the start or at the end.
abbrev pub is_calm : Line → Line → Line → Line → Bool
is_calm center center center _ = true
is_calm _ center center center = true
is_calm no_line no_line center center = true
is_calm center center no_line no_line = true
is_calm _ _ _ _ = false

-- A test that holds of each line holds of every one.
abbrev each : (Line → Bool) → Bool
each p = p left && (p center && (p right && p no_line))

and-left : (a b : Bool) → (a && b) ≡ true → a ≡ true
and-left true b h = refl
and-left false b h = cc

and-right : (a b : Bool) → (a && b) ≡ true → b ≡ true
and-right true b h = h
and-right false b h = cc

each_sound : (p : Line → Bool) → each p ≡ true → (x : Line) → p x ≡ true
each_sound p h left = and-left (p left) _ h
each_sound p h center = and-left (p center) _ (and-right (p left) _ h)
each_sound p h right = and-left (p right) _ (and-right (p center) _ (and-right (p left) _ h))
each_sound p h no_line = and-right (p right) _ (and-right (p center) _ (and-right (p left) _ h))

abbrev same_bool : Bool → Bool → Bool
same_bool true b = b
same_bool false b = not b

same_bool_sound : (a b : Bool) → same_bool a b ≡ true → a ≡ b
same_bool_sound true true h = refl
same_bool_sound true false h = cc
same_bool_sound false true h = cc
same_bool_sound false false h = refl

abbrev agree : Line → Line → Line → Line → Bool
agree a b c d = same_bool (rotary_detected (a ∷ b ∷ c ∷ d ∷ [])) (not (is_calm a b c d))

all_agree : each (λ a. each (λ b. each (λ c. each (λ d. agree a b c d)))) ≡ true
unfolding rotary_detected longest_run max_consecutive non_center_count changes
all_agree = refl

-- Four samples are taken for a rotary exactly if they are not those of an ordinary road: the three
-- conditions together come to this, and leave nine of the 256 lists of samples.
pub rotary_detected-calm :
    (a b c d : Line) → rotary_detected (a ∷ b ∷ c ∷ d ∷ []) ≡ not (is_calm a b c d)
rotary_detected-calm a b c d = same_bool_sound _ _ (
    each_sound (λ z. agree a b c z)
      (each_sound (λ y. each (λ z. agree a b y z))
        (each_sound (λ x. each (λ y. each (λ z. agree a x y z)))
          (each_sound (λ w. each (λ x. each (λ y. each (λ z. agree w x y z)))) all_agree a) b)
        c)
      d)
