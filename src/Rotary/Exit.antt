-- ===== src/Rotary/Exit.antt =====
-- How a robot leaves a rotary.
use adeept_awr.Common.{
  ℕ, zero, suc, ◌+◌, ◌<◌, ◌⊎◌, inl, All, ◌≡◌, refl, ◌∙◌, Bool, true, false, List, [], ◌∷◌, map,
  Float, of_ℕ, arith, length,
}
use adeept_awr.Vocabulary.{move_straight_forward, center}
use adeept_awr.Rotary.State.{
  is_last, RotaryMemory, RotaryStatus, exiting, read_three_line_sensors_and_convert_to_position,
  add_new_sensor_reading_to_memory, update_rotary_status_based_on_current_situation,
}
use adeept_awr.Rotary.Decision.{decide, decide_driving_action_for_rotary_exit}
use adeept_awr.Rotary.Command.{
  Sample, get_smart_driving_command_for_rotary_and_normal_sections, run,
}

abbrev pub is_exiting : RotaryStatus → Bool
is_exiting exiting = true
is_exiting _ = false

-- `k` times no, then yes.
abbrev pub last_only : ℕ → List Bool
last_only zero = true ∷ []
last_only (suc k) = false ∷ last_only k

module _ {ℓ} {W : Type ℓ} ⦃f : Float W⦄ where
  -- In a rotary, with `n` centre readings in a row since the last other one.
  pub record InRotary (n : ℕ) (s : RotaryMemory W) : Type 0 where
    pub in_rotary : s.is_currently_in_rotary ≡ true
    pub counted :
        ((n ≡ 0) × (is_last center s.last_detected_direction ≡ false))
        ⊎ ((is_last center s.last_detected_direction ≡ true)
            × (s.consecutive_same_direction_count ≡ n))

  -- The sensors show the centre, before ten seconds in the rotary are over.
  pub record IsCenter (since : W) (i : Sample W) : Type 0 where
    pub position : read_three_line_sensors_and_convert_to_position i.sensors ≡ center
    pub in_time : f.lt (of_ℕ 10) (f.sub i.clock since) ≡ false

  center_step :
      (n : ℕ) (i : Sample W) (s : RotaryMemory W)
      → InRotary n s
      → IsCenter s.rotary_start_time i
      → let (t, c) = get_smart_driving_command_for_rotary_and_normal_sections i s in
        (n < 4
          → InRotary (n + 1) t
            × (t.rotary_start_time ≡ s.rotary_start_time)
            × (is_exiting c.rotary_status ≡ false))
        × (n ≡ 4 → (t.is_currently_in_rotary ≡ false) × (is_exiting c.rotary_status ≡ true))
  unfolding get_smart_driving_command_for_rotary_and_normal_sections
      update_rotary_status_based_on_current_situation add_new_sensor_reading_to_memory
  center_step n i s h g = ground arith

  centers_leave_from :
      (k n : ℕ) (is : List (Sample W)) (start : W) (s : RotaryMemory W)
      → n + k ≡ 4
      → InRotary n s
      → s.rotary_start_time ≡ start
      → length is ≡ suc k
      → All (IsCenter start) is
      → ((run is s).0.is_currently_in_rotary ≡ false)
        × (map (λ c. is_exiting c.rotary_status) (run is s).1 ≡ last_only k)
  unfolding run
  centers_leave_from k n [] start s e h t l g = absurd (omega arith)
  centers_leave_from zero n (i ∷ []) start s e h t l (g, gs) =
      let out = (center_step n i s h (rw t g)).1 (omega arith) in (out.0, rw out.1)
  centers_leave_from zero n (i ∷ j ∷ is) start s e h t l g = absurd (omega arith)
  centers_leave_from (suc k) n (i ∷ is) start s e h t l (g, gs) =
      let (on, kept, still) = (center_step n i s h (rw t g)).0 (omega arith) in
      let s' = (get_smart_driving_command_for_rotary_and_normal_sections i s).0 in
      let (out, rest) =
        centers_leave_from k (n + 1) is start s' (omega arith) on (kept ∙ t) (omega arith) gs in
      (out, rw (still, rest))

  -- Five centre readings in a row, none of them after ten seconds in the rotary, take a robot out of
  -- it: the first four calls do not report `exiting`, the fifth does, and the robot is in no rotary
  -- then. The last direction before them was not the centre.
  pub five_centers_leave :
      (is : List (Sample W)) (s : RotaryMemory W)
      → s.is_currently_in_rotary ≡ true
      → is_last center s.last_detected_direction ≡ false
      → length is ≡ 5
      → All (IsCenter s.rotary_start_time) is
      → ((run is s).0.is_currently_in_rotary ≡ false)
        × (map (λ c. is_exiting c.rotary_status) (run is s).1
            ≡ false ∷ false ∷ false ∷ false ∷ true ∷ [])
  five_centers_leave is s e d l g =
      centers_leave_from 4 0 is s.rotary_start_time s refl
        (record { in_rotary = e; counted = inl (refl, d) }) refl l g

  -- A robot that is in a rotary for more than ten seconds is out of it after the next call, which
  -- commands to go ahead at speed 80.
  pub overtime_leaves :
      (i : Sample W) (s : RotaryMemory W)
      → s.is_currently_in_rotary ≡ true
      → f.lt (of_ℕ 10) (f.sub i.clock s.rotary_start_time) ≡ true
      → let (t, c) = get_smart_driving_command_for_rotary_and_normal_sections i s in
        (t.is_currently_in_rotary ≡ false)
        × (c.rotary_status ≡ exiting)
        × (c.decision ≡ decide move_straight_forward 80)
  unfolding get_smart_driving_command_for_rotary_and_normal_sections
      update_rotary_status_based_on_current_situation add_new_sensor_reading_to_memory
      decide_driving_action_for_rotary_exit
  overtime_leaves i s e o = ground arith
