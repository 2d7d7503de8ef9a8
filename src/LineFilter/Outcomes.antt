-- ===== src/LineFilter/Outcomes.antt =====
-- What a filtered reading is made of, on every branch.
use mathlib.Core.List.{reverse-cons}
use adeept_awr.Common.{
  reverse, get_elem?, ◌≤◌, ◌≡◌, refl, Bool, true, false, ◌⊎◌, inl, inr, some, List, [], ◌∷◌, ◌++◌,
  Float, arith, length, from_end, push, Result, ok, raise, type_error, leb, ◌||◌,
}
use adeept_awr.LineFilter.State.{
  LineSensorReading, FilterState, multiple_sample_count, reliable_history_size,
}
use adeept_awr.LineFilter.Consistency.{
  check_change_rates, check_pattern, check_sensor_reading_consistency,
}
use adeept_awr.LineFilter.Reading.{
  Measurement, FilteredReading, good, backup_used, take_samples, majority_reading, record_samples,
  settle, take_multiple_sensor_samples_and_filter, get_most_reliable_recent_reading, from_reading,
  back_up, present, get_filtered_line_sensor_reading,
}

module _ {ℓ} {W : Type ℓ} ⦃f : Float W⦄ where
  abbrev pub measured : Measurement W → LineSensorReading W
  measured m = majority_reading (take_samples m.reads 0 multiple_sample_count) m.stamp

  -- The histories of five values or more, where the change rates are taken.
  abbrev pub has_full_history : FilterState W → Bool
  has_full_history s =
      leb 5 (length s.left_sensor_history)
      || leb 5 (length s.center_sensor_history)
      || leb 5 (length s.right_sensor_history)

  -- The states before and after a call, and what it returns.
  pub data Reply (m : Measurement W) (s : FilterState W)
      : FilterState W → Result (FilteredReading W) → Type ℓ where
    accepted :
        (t : FilterState W)
        → t.reliable_readings_history
          ≡ push reliable_history_size s.reliable_readings_history (measured m)
        → Reply m s t (ok (from_reading good (measured m).confidence (measured m) t))
    replaced :
        (t : FilterState W) (r : LineSensorReading W)
        → t.reliable_readings_history ≡ s.reliable_readings_history
        → from_end s.reliable_readings_history 0 ≡ some r
        → 2 ≤ length s.reliable_readings_history
        → Reply m s t (ok (from_reading backup_used (f.mul r.confidence (f.lit 5 10)) r t))
    raised :
        (t : FilterState W)
        → t.reliable_readings_history ≡ s.reliable_readings_history
        → has_full_history t ≡ true
        → 2 ≤ length s.reliable_readings_history
        → Reply m s t (raise type_error)

  pub consistency-cases :
      (r : LineSensorReading W) (s : FilterState W)
      → (check_sensor_reading_consistency r s ≡ ok true)
        ⊎ ((check_sensor_reading_consistency r s ≡ ok false)
            × (2 ≤ length s.reliable_readings_history))
        ⊎ ((check_sensor_reading_consistency r s ≡ raise type_error)
            × (has_full_history s ≡ true)
            × (2 ≤ length s.reliable_readings_history))
  unfolding check_sensor_reading_consistency check_change_rates check_pattern
  consistency-cases r s = ground arith

  get_elem?-snoc :
      (ys : List (LineSensorReading W)) (x : LineSensorReading W)
      → (r : LineSensorReading W) × (get_elem? (ys ++ (x ∷ [])) 0 ≡ some r)
  get_elem?-snoc [] x = (x, refl)
  get_elem?-snoc (y ∷ ys) x = (y, refl)

  last_exists :
      (xs : List (LineSensorReading W))
      → 1 ≤ length xs
      → (r : LineSensorReading W) × (from_end xs 0 ≡ some r)
  unfolding from_end
  last_exists [] h = elim h [ ]
  last_exists (x ∷ xs) h = rw (reverse-cons) (get_elem?-snoc (reverse xs) x)

  settle-Reply :
      (m : Measurement W) (s : FilterState W)
      → let s' = record_samples 5 (measured m) s in
        let (t, r) =
          settle (measured m) m.end (check_sensor_reading_consistency (measured m) s') s' in
        Reply m s t (present m.now t r)
  unfolding settle present back_up record_samples get_most_reliable_recent_reading
  settle-Reply m s =
      let s' = record_samples 5 (measured m) s in
      elim (consistency-cases (measured m) s') [
        | inl e ↦ rw e (accepted _ refl)
        | inr (inl (e, two)) ↦
            let (r, last) = last_exists s.reliable_readings_history (omega arith) in
            rw (e, last) (replaced _ r refl last two)
        | inr (inr (e, full, two)) ↦ rw e (raised _ refl full two)
      ]

  -- A call ends in one of three ways. It accepts the majority reading, which joins the reliable ones;
  -- or it returns the last reliable reading at half its confidence, and keeps them; or it raises a
  -- `TypeError` because a sensor has five values in its history. The last two need two reliable
  -- readings, so the safe default is never returned.
  pub reading_replies :
      (m : Measurement W) (s : FilterState W)
      → let (t, r) = get_filtered_line_sensor_reading m s in Reply m s t r
  unfolding get_filtered_line_sensor_reading take_multiple_sensor_samples_and_filter take_samples
  reading_replies m s = settle-Reply m s
