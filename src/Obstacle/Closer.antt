-- ===== src/Obstacle/Closer.antt =====
-- A nearer obstacle is at least as dangerous.
use adeept_awr.Common.{ℕ, ◌+◌, ◌≤◌, ◌≡◌, Bool, true, false, some, Float, of_ℕ, arith}
use adeept_awr.Vocabulary.{DangerLevel, safe, caution, dangerous, very_dangerous, unknown}
use adeept_awr.Ultrasonic.Measure.{DistanceReport}
use adeept_awr.Obstacle.Danger.{analyze_danger_level_from_distance}
use adeept_awr.Obstacle.Status.{adjust_danger, status_of}

abbrev pub severity : DangerLevel → ℕ
severity unknown = 0
severity safe = 0
severity caution = 1
severity dangerous = 2
severity very_dangerous = 3

abbrev pub IsTransitive {ℓ} : {W : Type ℓ} → Float W → Type ℓ
IsTransitive {W} f = (a b c : W) → f.le a b ≡ true → f.le b c ≡ true → f.le a c ≡ true

module _ {ℓ} {W : Type ℓ} ⦃f : Float W⦄ where
  -- The level that is reported for a distance.
  abbrev pub level_seen : DistanceReport W → Bool → W → DangerLevel
  level_seen r healthy d =
      (status_of (record r { distance_cm = some d; is_sensor_healthy = healthy })).danger_level

  -- If the order of the distances is transitive: of two measured distances, the nearer one has at
  -- least the severity of the farther one, also where the sensor is healthy for the farther and not
  -- for the nearer one; and a sensor that is not healthy raises the severity of the distance by one
  -- step at most and never lowers it.
  pub nearer_is_riskier :
      IsTransitive f
      → (near far : W) (healthy : Bool) (r : DistanceReport W) → f.le near far ≡ true
      → (severity (level_seen r healthy far) ≤ severity (level_seen r healthy near))
        × (severity (level_seen r true far) ≤ severity (level_seen r false near))
        × (severity (level_seen r true near) ≤ severity (level_seen r false near))
        × (severity (level_seen r false near) ≤ severity (level_seen r true near) + 1)
  unfolding status_of adjust_danger analyze_danger_level_from_distance
  nearer_is_riskier law near far true r h =
      let a = law near far (of_ℕ 10) h in
      let b = law near far (of_ℕ 20) h in let c = law near far (of_ℕ 40) h in ground arith
  nearer_is_riskier law near far false r h =
      let a = law near far (of_ℕ 10) h in
      let b = law near far (of_ℕ 20) h in let c = law near far (of_ℕ 40) h in ground arith
