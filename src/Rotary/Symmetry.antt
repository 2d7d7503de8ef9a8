-- ===== src/Rotary/Symmetry.antt =====
-- Whole calls commute with the mirror image.
use adeept_awr.Common.{
  ℕ, ◌≡◌, refl, ap, true, false, Option, none, some, List, Float, arith, Bool-cases, inl, inr, ltb,
}
use adeept_awr.Vocabulary.{Position, left, center, right, Action}
use adeept_awr.Rotary.State.{
  SensorReading, RotaryMemory, sensor_memory_size, RotaryStatus, normal, entering, inside, exiting,
  same_position, is_last, read_three_line_sensors_and_convert_to_position,
  add_new_sensor_reading_to_memory, update_inside, update_rotary_status_based_on_current_situation,
}
use adeept_awr.Rotary.Decision.{
  DirectionCounts, total_count, count_each_direction_in_recent_readings,
  decide_driving_action_for_normal_line_following, decide_driving_action_for_rotary_entry,
  decide_driving_action_for_rotary_inside_using_frequency_method,
  decide_driving_action_for_rotary_exit, choose_by_ratio, analyze_most_recent_sensor_trend,
  ratio_of, is_stable_on,
}
use adeept_awr.Rotary.Command.{
  Sample, decide_for, drive_at, get_smart_driving_command_for_rotary_and_normal_sections,
}
use adeept_awr.Rotary.Mirror.{
  mirror, mirror_action, mirror_decision, mirror_counts, mirror_direction, mirror_command,
  mirror_memory, mirror_sample, read-mirror, push-mirror, counts-mirror, length-mirror,
  entering-mirror, trend-mirror,
}

-- Of two numbers that are at least 0.6, not each is above the double of the other.
abbrev pub NotTwiceBoth {ℓ} : {W : Type ℓ} → Float W → Type ℓ
NotTwiceBoth {W} f =
    (a b : W)
    → f.le (f.lit 6 10) a ≡ true
    → f.le (f.lit 6 10) b ≡ true
    → f.lt (f.mul b (f.lit 2 1)) a ≡ true
    → f.lt (f.mul a (f.lit 2 1)) b ≡ false

same-mirror : (p q : Position) → same_position (mirror p) (mirror q) ≡ same_position p q
same-mirror p q = ground arith

last-mirror :
    (p : Position) (d : Option Position) → is_last (mirror p) (mirror_direction d) ≡ is_last p d
last-mirror p none = refl
last-mirror p (some q) = same-mirror p q

total-mirror : (n : DirectionCounts) → total_count (mirror_counts n) ≡ total_count n
total-mirror n = omega arith

stable-mirror :
    (p : Position) (n : ℕ) (d : Option Position)
    → is_stable_on (mirror p) n (mirror_direction d) ≡ is_stable_on p n d
stable-mirror p n none = refl
stable-mirror p n (some q) = rw (same-mirror q p)

module _ {ℓ} {W : Type ℓ} ⦃f : Float W⦄ where
  add-mirror :
      (p : Position) (now : W) (s : RotaryMemory W)
      → add_new_sensor_reading_to_memory (mirror p) now (mirror_memory s)
        ≡ mirror_memory (add_new_sensor_reading_to_memory p now s)
  unfolding add_new_sensor_reading_to_memory
  add-mirror p now s =
      ap (λ (l : List (SensorReading W)). record (mirror_memory s) { recent_sensor_readings = l })
        (push-mirror sensor_memory_size s.recent_sensor_readings
          (record { position = p; time = now }))

  inside-mirror :
      (p : Position) (now : W) (s : RotaryMemory W)
      → update_inside (mirror p) now (mirror_memory s)
        ≡ (let (t, c) = update_inside p now s in (mirror_memory t, c))
  unfolding update_inside
  inside-mirror p now s =
      rw (same-mirror p center, last-mirror p s.last_detected_direction) (ground arith)

  update-mirror :
      (p : Position) (now : W) (s : RotaryMemory W)
      → update_rotary_status_based_on_current_situation (mirror p) now (mirror_memory s) ≡ (
          let (t, c) = update_rotary_status_based_on_current_situation p now s in
          (mirror_memory t, c))
  unfolding update_rotary_status_based_on_current_situation
  update-mirror p now s =
      rw (entering-mirror s.recent_sensor_readings) (ground (arith, inside-mirror p now s))

  entry-mirror :
      (s : RotaryMemory W)
      → decide_driving_action_for_rotary_entry (mirror_memory s)
        ≡ mirror_decision (decide_driving_action_for_rotary_entry s)
  unfolding decide_driving_action_for_rotary_entry
  entry-mirror s = rw (counts-mirror s.recent_sensor_readings) (ground arith)

  choose-mirror :
      NotTwiceBoth f
      → (a c b : W) (x : Action)
      → choose_by_ratio b c a (mirror_action x) ≡ mirror_decision (choose_by_ratio a c b x)
  unfolding choose_by_ratio
  choose-mirror law a c b x = ground (arith, law a b)

  frequency-mirror :
      NotTwiceBoth f
      → (s : RotaryMemory W)
      → decide_driving_action_for_rotary_inside_using_frequency_method (mirror_memory s)
        ≡ mirror_decision (decide_driving_action_for_rotary_inside_using_frequency_method s)
  unfolding decide_driving_action_for_rotary_inside_using_frequency_method
  frequency-mirror law s =
      let n = count_each_direction_in_recent_readings s.recent_sensor_readings in
      let k = s.consecutive_same_direction_count in
      let d = s.last_detected_direction in
      let total = total_count n in
      let moves =
        choose-mirror law (ratio_of n.left_count total (is_stable_on left k d))
          (ratio_of n.center_count total (is_stable_on center k d))
          (ratio_of n.right_count total (is_stable_on right k d))
          (analyze_most_recent_sensor_trend s.recent_sensor_readings) in
      elim (Bool-cases (ltb total 12)) [
        | inl b ↦ rw (counts-mirror s.recent_sensor_readings, total-mirror n, b)
        | inr b ↦
            rw
              (
                counts-mirror s.recent_sensor_readings,
                total-mirror n,
                b,
                stable-mirror right k d,
                stable-mirror center k d,
                stable-mirror left k d,
                trend-mirror s.recent_sensor_readings,
              )
              moves
      ]

  decide-mirror :
      NotTwiceBoth f
      → (c : RotaryStatus) (p : Position) (s : RotaryMemory W)
      → decide_for c (mirror p) (mirror_memory s) ≡ mirror_decision (decide_for c p s)
  unfolding decide_for decide_driving_action_for_normal_line_following
      decide_driving_action_for_rotary_exit
  decide-mirror law normal p s = ground arith
  decide-mirror law entering p s = entry-mirror s
  decide-mirror law inside p s = frequency-mirror law s
  decide-mirror law exiting p s = refl

  drive-mirror :
      NotTwiceBoth f
      → (p : Position) (stamp clock : W) (s : RotaryMemory W)
      → drive_at (mirror p) stamp clock (mirror_memory s)
        ≡ (let (t, c) = drive_at p stamp clock s in (mirror_memory t, mirror_command c))
  unfolding drive_at
  drive-mirror law p stamp clock s =
      let s₁ = add_new_sensor_reading_to_memory p stamp s in
      let (s₂, c) = update_rotary_status_based_on_current_situation p clock s₁ in
      rw (
        add-mirror p stamp s,
        update-mirror p clock s₁,
        decide-mirror law c p s₂,
        counts-mirror s₂.recent_sensor_readings,
        length-mirror s₂.recent_sensor_readings,
      )

  -- A robot whose memory and sensors are mirrored, left for right, does the mirror image of what it
  -- does else: the memory that it is left with, the command with its action, the counts and the
  -- rotary status, in every part of the course. The law asked of the numbers rules out two ratios of
  -- at least 0.6 that are each above the double of the other.
  pub command-mirror :
      NotTwiceBoth f
      → (i : Sample W) (s : RotaryMemory W)
      → get_smart_driving_command_for_rotary_and_normal_sections (mirror_sample i) (mirror_memory s)
        ≡ (let (t, c) = get_smart_driving_command_for_rotary_and_normal_sections i s in
            (mirror_memory t, mirror_command c))
  unfolding get_smart_driving_command_for_rotary_and_normal_sections
  command-mirror law i s = rw (read-mirror i.sensors) (
      drive-mirror law (read_three_line_sensors_and_convert_to_position i.sensors) i.stamp i.clock
        s)
