-- ===== src/Obstacle/Examples.antt =====
-- Concrete distances, in thousandths of a cm.
use adeept_awr.Common.{ℕ, ◌≡◌, refl, true, none, some, [], ◌∷◌, map, fixed_float, arith}
use adeept_awr.Vocabulary.{safe, caution, dangerous, very_dangerous, unknown}
use adeept_awr.Ultrasonic.State.{high}
use adeept_awr.Ultrasonic.Measure.{DistanceReport}
use adeept_awr.Obstacle.Danger.{analyze_danger_level_from_distance}
use adeept_awr.Obstacle.Closer.{IsTransitive}

levels :
    map
      (analyze_danger_level_from_distance {W = ℕ})
      (some 10000 ∷ some 10001 ∷ some 40000 ∷ some 40001 ∷ none ∷ [])
    ≡ very_dangerous ∷ dangerous ∷ caution ∷ safe ∷ unknown ∷ []
unfolding analyze_danger_level_from_distance
levels = refl

abbrev reported : DistanceReport ℕ
reported = record {
  distance_cm = some 30000;
  confidence = high;
  reliability_score = 80;
  is_sensor_healthy = true;
  measurement_consistency = true;
  raw_measurements_count = 5;
  filtered_measurements_count = 1;
  noise_detection_rate = 0;
}

fixed_IsTransitive : IsTransitive fixed_float
fixed_IsTransitive a b c h k = ground (arith, h, k)
