-- ===== src/Avoidance/Wall.antt =====
-- Wall following: `execute_wall_following_avoidance`.
use adeept_awr.Vocabulary.{
  Action, move_straight_forward, turn_left_to_follow_line, turn_right_to_follow_line,
}
use adeept_awr.Common.{
  ℕ, ◌+◌, ◌≤◌, ◌<◌, ◌≡◌, refl, Bool, true, false, none, some, List, [], ◌∷◌, Float, of_ℕ, arith,
  length, All, Result, ok, raise,
}
use native.Mathlib.Decide.{dec_lt}
use adeept_awr.Avoidance.State.{wall_following, avoiding, returning, AvoidanceState}
use adeept_awr.Avoidance.Analysis.{add_obstacle_detection_to_history}
use adeept_awr.Avoidance.Strategies.{execute_wall_following_avoidance}
use adeept_awr.Avoidance.Command.{
  Input, Report, execute_selected_avoidance_strategy, respond,
  get_complete_obstacle_avoidance_command, run,
}

length-zero {ℓ} : {A : Type ℓ} (xs : List A) → length xs ≡ 0 → xs ≡ []
length-zero [] h = refl
length-zero (x ∷ xs) h = absurd (omega arith)

module _ {ℓ} {W : Type ℓ} ⦃f : Float W⦄ where
  -- Along the wall, in the phase `avoiding`, with `n` good distances seen.
  pub record IsFollowing (n : ℕ) (s : AvoidanceState W) : Type 0 where
    pub strategy : s.current_strategy ≡ wall_following
    pub phase : s.current_phase ≡ avoiding
    pub step : s.step_count ≡ n

  abbrev pub is_near : W → Bool
  is_near d = f.lt d (f.sub (of_ℕ 25) (of_ℕ 5))

  abbrev pub is_far : W → Bool
  is_far d = f.lt (f.add (of_ℕ 25) (of_ℕ 10)) d

  -- The distance of a call is at hand, and neither too near nor too far.
  abbrev pub IsGood : Input W → Type ℓ
  IsGood i = (d : W) × (i.distance_cm ≡ some d) × (is_near d ≡ false) × (is_far d ≡ false)

  good_step :
      (i : Input W) (n : ℕ) (s : AvoidanceState W)
      → IsFollowing n s
      → IsGood i
      → let s' = (get_complete_obstacle_avoidance_command i s).0 in
        (n < 15 → IsFollowing (n + 1) s') × (n ≡ 15 → (s'.current_phase ≡ returning))
  unfolding get_complete_obstacle_avoidance_command add_obstacle_detection_to_history respond
      execute_selected_avoidance_strategy execute_wall_following_avoidance
  good_step i n s h g = ground arith

  AllGood-Returning :
      (is : List (Input W)) (n : ℕ) (s : AvoidanceState W)
      → IsFollowing n s
      → n ≤ 15
      → length is + n ≡ 16
      → All IsGood is
      → (run is s).0.current_phase ≡ returning
  unfolding run
  AllGood-Returning [] n s h b e g = absurd (omega arith)
  AllGood-Returning (i ∷ is) n s h b e (g, gs) =
      let (on, out) = good_step i n s h g in
      let s' = (get_complete_obstacle_avoidance_command i s).0 in
      elim (dec_lt n 15) [
        | yes lt ↦ AllGood-Returning is (n + 1) s' (on lt) (omega arith) (omega arith) gs
        | no ge ↦ let last : is ≡ [] = length-zero is (omega arith) in rw last (out (omega arith))
      ]

  -- From the start of wall following, sixteen calls with a distance from 20 to 35 cm bring the
  -- system to the phase that returns to the line.
  pub wall_returns :
      (is : List (Input W)) (s : AvoidanceState W)
      → IsFollowing 0 s
      → length is ≡ 16
      → All IsGood is
      → (run is s).0.current_phase ≡ returning
  wall_returns is s h e g = AllGood-Returning is 0 s h (omega arith) (omega arith) g

  abbrev pub Commands : Action → ℕ → Result (Report W) → Type 0
  Commands a v (ok r) = (r.command.action ≡ a) × (r.command.speed ≡ v)
  Commands a v (raise e) = ⊥

  -- While the wall is followed, a distance below 20 cm turns left and one above 35 cm turns right,
  -- at speed 45, and with no distance the robot goes ahead at speed 40; none of these counts as
  -- progress.
  pub wall_corrects :
      (i : Input W) (n : ℕ) (s : AvoidanceState W)
      → IsFollowing n s
      → let (s', r) = get_complete_obstacle_avoidance_command i s in
        ((d : W)
          → i.distance_cm ≡ some d
          → is_near d ≡ true
          → IsFollowing n s' × Commands turn_left_to_follow_line 45 r)
        × ((d : W)
            → i.distance_cm ≡ some d
            → is_near d ≡ false
            → is_far d ≡ true
            → IsFollowing n s' × Commands turn_right_to_follow_line 45 r)
        × (i.distance_cm ≡ none → IsFollowing n s' × Commands move_straight_forward 40 r)
  unfolding get_complete_obstacle_avoidance_command add_obstacle_detection_to_history respond
      execute_selected_avoidance_strategy execute_wall_following_avoidance
  wall_corrects i n s h = (λ d e a. ground arith, λ d e a b. ground arith, λ e. ground arith)
