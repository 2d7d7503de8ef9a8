-- ===== src/Controller/Transitions.antt =====
-- The state machine of the rotary sensor, and what the LED shows with it.
use adeept_awr.Common.{
  ◌≤◌, ◌≡◌, ◌≢◌, refl, sym, ◌∙◌, Bool, true, inl, inr, Bool-cases, some, Float, of_ℕ, arith, leb,
  push,
}
use adeept_awr.Vocabulary.{Position}
use adeept_awr.Controller.Line.{
  Reading, RotaryState, normal, entering_rotary, in_rotary, exiting_rotary, state_is,
}
use adeept_awr.Controller.Rotary.{
  Analyzer, detect_rotary_entry, progress, enter, update_rotary_state, update_consecutive_counters,
  add_observation, enhance,
}
use adeept_awr.Controller.Decision.{RobotCommand}
use adeept_awr.Controller.Operations.{
  lost_line, line_following, AutonomousController, SensorInput, line_of, robot_state_for,
  collect_sensor_data,
}

shown-hidden :
    (c : RobotCommand) (x : RotaryState) (b : Bool)
    → let shown = robot_state_for c (state_is x) b in (shown ≢ lost_line) × (shown ≢ line_following)
unfolding robot_state_for
shown-hidden c x b = ground arith

module _ {ℓ} {W : Type ℓ} ⦃f : Float W⦄ where
  -- How the state of the rotary may change in an observation at a time, with what it takes.
  pub data Moves (now : W) (s t : Analyzer W) : Type ℓ where
    stays : t.current_rotary_state ≡ s.current_rotary_state → Moves now s t
    enters :
        s.current_rotary_state ≡ normal
        → t.current_rotary_state ≡ entering_rotary
        → detect_rotary_entry t.direction_history ≡ true
        → t.rotary_entry_time ≡ now
        → Moves now s t
    goes_inside :
        s.current_rotary_state ≡ entering_rotary
        → t.current_rotary_state ≡ in_rotary
        → f.lt (of_ℕ 1) (f.sub now s.rotary_entry_time) ≡ true
        → Moves now s t
    begins_exit :
        s.current_rotary_state ≡ in_rotary
        → t.current_rotary_state ≡ exiting_rotary
        → 5 ≤ t.consecutive_center
        → Moves now s t
    leaves :
        s.current_rotary_state ≡ exiting_rotary
        → t.current_rotary_state ≡ normal
        → 10 ≤ t.consecutive_center
        → Moves now s t

  progress-Moves :
      (x : RotaryState) (now : W) (s : Analyzer W)
      → s.current_rotary_state ≡ x
      → Moves now s (progress x now s)
  unfolding progress
  progress-Moves normal now s e = stays refl
  progress-Moves entering_rotary now s e =
      elim (Bool-cases (f.lt (of_ℕ 1) (f.sub now s.rotary_entry_time))) [
        | inl h ↦ rw h (goes_inside e refl h)
        | inr h ↦ rw h (stays refl)
      ]
  progress-Moves in_rotary now s e = elim (Bool-cases (leb 5 s.consecutive_center)) [
    | inl h ↦ rw h (begins_exit e refl (ground (arith, h)))
    | inr h ↦ rw h (stays refl)
  ]
  progress-Moves exiting_rotary now s e = elim (Bool-cases (leb 10 s.consecutive_center)) [
    | inl h ↦ rw h (leaves e refl (ground (arith, h)))
    | inr h ↦ rw h (stays refl)
  ]

  enter-Moves :
      (x : RotaryState) (now : W) (s : Analyzer W)
      → s.current_rotary_state ≡ x
      → detect_rotary_entry s.direction_history ≡ true
      → Moves now s (enter x now s)
  unfolding enter
  enter-Moves normal now s e h = enters e refl h refl
  enter-Moves _ now s e h = stays refl

  update-Moves : (now : W) (s : Analyzer W) → Moves now s (update_rotary_state now s)
  unfolding update_rotary_state
  update-Moves now s = elim (Bool-cases (detect_rotary_entry s.direction_history)) [
    | inl h ↦ rw h (enter-Moves s.current_rotary_state now s refl h)
    | inr h ↦ rw h (progress-Moves s.current_rotary_state now s refl)
  ]

  rebase :
      (now : W) (s s' t : Analyzer W)
      → s'.current_rotary_state ≡ s.current_rotary_state
      → s'.rotary_entry_time ≡ s.rotary_entry_time
      → Moves now s' t
      → Moves now s t
  rebase now s s' t e u (stays h) = stays (h ∙ e)
  rebase now s s' t e u (enters h k l n) = enters (sym e ∙ h) k l n
  rebase now s s' t e u (goes_inside h k l) = goes_inside (sym e ∙ h) k (rw (sym u) l)
  rebase now s s' t e u (begins_exit h k l) = begins_exit (sym e ∙ h) k l
  rebase now s s' t e u (leaves h k l) = leaves (sym e ∙ h) k l

  -- In an observation the state of the rotary stays, or it goes from normal to entering where the
  -- pattern of an entry is seen, from entering to inside after more than one second, from inside to
  -- exiting after five centre positions in a row, or from exiting to normal after ten of them.
  pub observation-Moves :
      (p : Position) (r : Reading) (now : W) (s : Analyzer W)
      → Moves now s (add_observation p r now s)
  unfolding add_observation update_consecutive_counters
  observation-Moves p r now s =
      let s' = update_consecutive_counters p (record s {
        direction_history = push 15 s.direction_history p;
        position_history = push 15 s.position_history r;
      }) in
      rebase now s s' (update_rotary_state now s') refl refl (update-Moves now s')

  -- With the rotary sensor in use, the LED never shows that the line is lost, nor that the line is
  -- followed, whatever is seen and decided: the command of this sensor has its rotary state in the
  -- place of the position.
  pub enhanced_hides_position :
      (i : SensorInput W) (a : Analyzer W) (s : AutonomousController W) (c : RobotCommand)
      (is_emergency : Bool)
      → s.enhanced_line_sensor ≡ some a
      → let (t, d) = collect_sensor_data i s in
        let shown = robot_state_for c d.line.line_position is_emergency in
        (shown ≢ lost_line) × (shown ≢ line_following)
  unfolding collect_sensor_data line_of enhance
  enhanced_hides_position i a s c is_emergency e = rw e (shown-hidden c _ is_emergency)
