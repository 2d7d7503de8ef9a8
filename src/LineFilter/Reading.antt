-- ===== src/LineFilter/Reading.antt =====
-- `take_multiple_sensor_samples_and_filter` and `get_filtered_line_sensor_reading` of
-- line_sensor_noise_filter.py, and a run over a sequence of calls.
use adeept_awr.Common.{
  ℕ, zero, suc, ◌+◌, ◌*◌, Bool, true, false, Option, none, some, List, [], ◌∷◌, Float, of_ℕ,
  if◌then◌else◌, ltb, length, count, from_end, push, Result, ok, raise,
}
use adeept_awr.LineFilter.State.{
  LineSensorReading, count_active_sensors, PerSensor, FilterState, sensor_history_size,
  reliable_history_size, multiple_sample_count,
}
use adeept_awr.LineFilter.Consistency.{
  check_sensor_reading_consistency, update_sensor_reliability_scores,
}

-- The values of the three sensors at the `i`-th read of a measurement, and the clock when the
-- reading is stamped, when the measurement ends and when a default is returned.
pub record Measurement {ℓ} (W : Type ℓ) : Type ℓ where
  pub reads : ℕ → PerSensor Bool
  pub stamp : W
  pub end : W
  pub now : W

pub data MeasurementQuality : Type 0 where
  good backup_used failed_using_safe_default : MeasurementQuality

-- The returned dictionary; the pattern as a text is left out.
pub record FilteredReading {ℓ} (W : Type ℓ) : Type ℓ where
  pub sensors : PerSensor Bool
  pub confidence : W
  pub timestamp : W
  pub active_sensor_count : ℕ
  pub measurement_quality : MeasurementQuality
  pub noise_filtered : Bool
  pub system_health : Bool

-- The loop that collects the samples: reads `i` to `i + n - 1`.
unfoldable pub take_samples : (ℕ → PerSensor Bool) → ℕ → ℕ → List (PerSensor Bool)
take_samples reads i zero = []
take_samples reads i (suc n) = reads i ∷ take_samples reads (i + 1) n

abbrev pub votes : (PerSensor Bool → Bool) → List (PerSensor Bool) → ℕ
votes = count

-- `votes > MULTIPLE_SAMPLE_COUNT / 2`
abbrev pub is_majority : ℕ → Bool
is_majority n = ltb multiple_sample_count (2 * n)

module _ {ℓ} {W : Type ℓ} ⦃f : Float W⦄ where
  abbrev pub vote_confidence : ℕ → W
  vote_confidence n = f.div (f.abs (f.sub (of_ℕ n) (f.lit 5 2))) (f.lit 5 2)

  abbrev pub overall_confidence : ℕ → ℕ → ℕ → W
  overall_confidence l c r =
      let mean =
        f.div (f.add (f.add (vote_confidence l) (vote_confidence c)) (vote_confidence r))
          (of_ℕ 3) in
      if f.lt mean (of_ℕ 1) then mean else of_ℕ 1

  unfoldable pub majority_reading : List (PerSensor Bool) → W → LineSensorReading W
  majority_reading samples now =
      let l = votes (λ s. s.left) samples in
      let c = votes (λ s. s.center) samples in
      let r = votes (λ s. s.right) samples in
      record {
        left = is_majority l;
        center = is_majority c;
        right = is_majority r;
        timestamp = now;
        confidence = overall_confidence l c r;
      }

  -- The samples are counted and the final values go into the histories.
  unfoldable pub record_samples : ℕ → LineSensorReading W → FilterState W → FilterState W
  record_samples n r s = record s {
    left_sensor_history = push sensor_history_size s.left_sensor_history r.left;
    center_sensor_history = push sensor_history_size s.center_sensor_history r.center;
    right_sensor_history = push sensor_history_size s.right_sensor_history r.right;
    filter_status = record s.filter_status {
      total_measurements = s.filter_status.total_measurements + n;
    };
  }

  -- What follows the check of consistency.
  unfoldable pub settle :
      LineSensorReading W
      → W
      → Result Bool
      → FilterState W
      → FilterState W × Result (Option (LineSensorReading W))
  settle r end (raise e) s = (s, raise e)
  settle r end (ok true) s =
      let st = update_sensor_reliability_scores true s.filter_status in
      (
        record s {
          reliable_readings_history = push reliable_history_size s.reliable_readings_history r;
          filter_status = record st { filtered_measurements = st.filtered_measurements + 1 };
          last_measurement_time = end;
        },
        ok (some r),
      )
  settle r end (ok false) s =
      let st = update_sensor_reliability_scores false s.filter_status in
      (
        record s {
          filter_status = record st { noise_detected_count = st.noise_detected_count + 1 };
          last_measurement_time = end;
        },
        ok none,
      )

  unfoldable pub take_multiple_sensor_samples_and_filter :
      Measurement W → FilterState W → FilterState W × Result (Option (LineSensorReading W))
  unfolding settle
  take_multiple_sensor_samples_and_filter m s =
      let samples = take_samples m.reads 0 multiple_sample_count in
      let r = majority_reading samples m.stamp in
      let s' = record_samples (length samples) r s in
      settle r m.end (check_sensor_reading_consistency r s') s'

  unfoldable pub get_most_reliable_recent_reading : FilterState W → Option (LineSensorReading W)
  get_most_reliable_recent_reading s = from_end s.reliable_readings_history 0

  unfoldable pub from_reading :
      MeasurementQuality → W → LineSensorReading W → FilterState W → FilteredReading W
  from_reading quality confidence r s = record {
    sensors = record { left = r.left; center = r.center; right = r.right };
    confidence = confidence;
    timestamp = r.timestamp;
    active_sensor_count = count_active_sensors r;
    measurement_quality = quality;
    noise_filtered = true;
    system_health = s.filter_status.is_system_healthy;
  }

  -- With no reliable reading at all: straight on.
  unfoldable pub safe_default : W → FilteredReading W
  safe_default now = record {
    sensors = record { left = false; center = true; right = false };
    confidence = f.lit 1 10;
    timestamp = now;
    active_sensor_count = 1;
    measurement_quality = failed_using_safe_default;
    noise_filtered = false;
    system_health = false;
  }

  unfoldable pub back_up : W → Option (LineSensorReading W) → FilterState W → FilteredReading W
  unfolding from_reading safe_default
  back_up now none s = safe_default now
  back_up now (some r) s = from_reading backup_used (f.mul r.confidence (f.lit 5 10)) r s

  unfoldable pub present :
      W → FilterState W → Result (Option (LineSensorReading W)) → Result (FilteredReading W)
  unfolding from_reading
  present now s (raise e) = raise e
  present now s (ok (some r)) = ok (from_reading good r.confidence r s)
  present now s (ok none) = ok (back_up now (get_most_reliable_recent_reading s) s)

  unfoldable pub get_filtered_line_sensor_reading :
      Measurement W → FilterState W → FilterState W × Result (FilteredReading W)
  unfolding present
  get_filtered_line_sensor_reading m s =
      let (s', r) = take_multiple_sensor_samples_and_filter m s in (s', present m.now s' r)

  unfoldable pub run :
      List (Measurement W) → FilterState W → FilterState W × List (Result (FilteredReading W))
  run [] s = (s, [])
  run (m ∷ ms) s =
      let (s', r) = get_filtered_line_sensor_reading m s in
      let (s'', rs) = run ms s' in (s'', r ∷ rs)
