-- ===== src/Controller/Distance.antt =====
-- `UltrasonicSensor` of autonomous_robot/sensors/ultrasonic_sensor.py. A single measurement, the average of
-- several, and the smoothing are those of simple_ultrasonic_functions.py, statement by statement, and
-- share the definitions.
use adeept_awr.Common.{
  ℕ, zero, suc, ◌+◌, Bool, true, false, Option, none, some, List, [], ◌∷◌, Float, of_ℕ,
  if◌then◌else◌,
}
use adeept_awr.Ultrasonic.Echo.{Echo, measure_distance_once_in_centimeters, average, smooth}
use adeept_awr.Controller.Line.{DriveAction, forward, turn_right, stop}

pub data ObstacleLevel : Type 0 where
  safe_level caution_level warning_level danger_level error_level : ObstacleLevel

pub data CommandPriority : Type 0 where
  low normal high emergency : CommandPriority

pub record UltrasonicSensor {ℓ} (W : Type ℓ) : Type ℓ where
  pub is_initialized : Bool
  pub distance_history : List W

pub record AvoidanceCommand {ℓ} (W : Type ℓ) : Type ℓ where
  pub action : DriveAction
  pub speed : ℕ
  pub distance : Option W
  pub obstacle_level : ObstacleLevel
  pub priority : CommandPriority

abbrev pub avoidance_command {ℓ} :
    {W : Type ℓ} → Option W → ObstacleLevel → DriveAction → ℕ → CommandPriority → AvoidanceCommand W
avoidance_command d l a v p = record {
  action = a;
  speed = v;
  distance = d;
  obstacle_level = l;
  priority = p;
}

module _ {ℓ} {W : Type ℓ} where
  unfoldable pub command_for : ObstacleLevel → Option W → AvoidanceCommand W
  command_for danger_level d = avoidance_command d danger_level stop 0 emergency
  command_for warning_level d = avoidance_command d warning_level turn_right 60 high
  command_for caution_level d = avoidance_command d caution_level forward 50 normal
  command_for safe_level d = avoidance_command d safe_level forward 80 low
  command_for error_level d = avoidance_command d error_level stop 0 high

  -- The argument is whether the setup of the pins works.
  unfoldable pub initialize_gpio : Bool → UltrasonicSensor W → UltrasonicSensor W × Bool
  initialize_gpio true s = (record s { is_initialized = true }, true)
  initialize_gpio false s = (s, false)

  unfoldable pub cleanup : UltrasonicSensor W → UltrasonicSensor W
  cleanup s = record s { is_initialized = false }

module _ {ℓ} {W : Type ℓ} ⦃f : Float W⦄ where
  unfoldable pub measure_distance_raw : Echo W → UltrasonicSensor W → Option W
  measure_distance_raw e s = measure_distance_once_in_centimeters s.is_initialized e

  abbrev pub with_distance : Option W → List W → List W
  with_distance none ds = ds
  with_distance (some d) ds = d ∷ ds

  -- The distances of `samples` measurements, from the `k`-th echo on.
  unfoldable pub raw_distances : (ℕ → Echo W) → ℕ → ℕ → UltrasonicSensor W → List W
  unfolding measure_distance_raw
  raw_distances echoes k zero s = []
  raw_distances echoes k (suc samples) s =
      with_distance (measure_distance_raw (echoes k) s) (raw_distances echoes (k + 1) samples s)

  unfoldable pub measure_distance_filtered : (ℕ → Echo W) → ℕ → UltrasonicSensor W → Option W
  unfolding raw_distances
  measure_distance_filtered echoes samples s = average (raw_distances echoes 0 samples s)

  unfoldable pub get_distance_with_history :
      (ℕ → Echo W) → UltrasonicSensor W → UltrasonicSensor W × Option W
  unfolding measure_distance_filtered
  get_distance_with_history echoes s =
      let (history, d) = smooth (measure_distance_filtered echoes 3 s) s.distance_history in
      (record s { distance_history = history }, d)

  unfoldable pub level_of : Option W → ObstacleLevel
  level_of none = error_level
  level_of (some d) =
      if f.le d (of_ℕ 10)
      then danger_level
      else if f.le d (of_ℕ 20)
      then warning_level
      else if f.le d (of_ℕ 40)
      then caution_level
      else safe_level

  -- Without a distance it measures one itself.
  unfoldable pub analyze_obstacle_level :
      Option W → (ℕ → Echo W) → UltrasonicSensor W → UltrasonicSensor W × ObstacleLevel
  unfolding level_of
  analyze_obstacle_level (some d) echoes s = (s, level_of (some d))
  analyze_obstacle_level none echoes s =
      let (s', d) = get_distance_with_history echoes s in (s', level_of d)

  -- The second sequence of echoes is for the level, where the first one gives no distance.
  unfoldable pub get_avoidance_command :
      (ℕ → Echo W) → (ℕ → Echo W) → UltrasonicSensor W → UltrasonicSensor W × AvoidanceCommand W
  unfolding command_for
  get_avoidance_command first second s =
      let (s₁, d) = get_distance_with_history first s in
      let (s₂, l) = analyze_obstacle_level d second s₁ in (s₂, command_for l d)

  -- `monitor_continuous`: the distances of the rounds that its time allows.
  unfoldable pub monitor_continuous :
      List (ℕ → Echo W) → UltrasonicSensor W → UltrasonicSensor W × List W
  unfolding get_distance_with_history
  monitor_continuous [] s = (s, [])
  monitor_continuous (e ∷ es) s =
      let (s₁, d) = get_distance_with_history e s in
      let (s₂, ds) = monitor_continuous es s₁ in (s₂, with_distance d ds)
