-- ===== src/Avoidance/State.antt =====
-- The enumerations and the module globals of obstacle_avoidance_strategies.py, and the two
-- functions that reset them. The unused list `avoidance_action_sequence` is left out, and so is
-- the printing.
use adeept_awr.Vocabulary.{DangerLevel}
use adeept_awr.Common.{ℕ, ◌+◌, Option, List, [], Float, of_ℕ, if◌then◌else◌}

pub data AvoidanceStrategy : Type 0 where
  simple_right_turn smart_side_selection wall_following : AvoidanceStrategy
  reverse_and_retry emergency_stop : AvoidanceStrategy

pub data AvoidancePhase : Type 0 where
  detecting planning avoiding returning completed : AvoidancePhase

pub record DetectionRecord {ℓ} (W : Type ℓ) : Type ℓ where
  pub distance : Option W
  pub danger_level : DangerLevel
  pub timestamp : W

pub record AvoidanceState {ℓ} (W : Type ℓ) : Type ℓ where
  pub current_strategy : AvoidanceStrategy
  pub current_phase : AvoidancePhase
  pub start_time : W
  pub step_count : ℕ
  pub detection_history : List (DetectionRecord W)
  pub successful_avoidances : ℕ
  pub failed_avoidances : ℕ

abbrev pub obstacle_history_size : ℕ
obstacle_history_size = 10

module _ {ℓ} {W : Type ℓ} ⦃f : Float W⦄ where
  -- The globals when the module is loaded.
  unfoldable pub initial_state : AvoidanceState W
  initial_state = record {
    current_strategy = simple_right_turn;
    current_phase = detecting;
    start_time = of_ℕ 0;
    step_count = 0;
    detection_history = [];
    successful_avoidances = 0;
    failed_avoidances = 0;
  }

  -- The counter of successes moves only if a start time was set.
  unfoldable pub reset_avoidance_state : AvoidanceState W → AvoidanceState W
  reset_avoidance_state s = record s {
    current_phase = detecting;
    step_count = 0;
    successful_avoidances =
        if f.lt (of_ℕ 0) s.start_time then s.successful_avoidances + 1 else s.successful_avoidances;
    start_time = of_ℕ 0;
  }

  unfoldable pub force_reset_avoidance_system : AvoidanceState W → AvoidanceState W
  force_reset_avoidance_system s = record s {
    current_strategy = simple_right_turn;
    current_phase = detecting;
    step_count = 0;
    start_time = of_ℕ 0;
    detection_history = [];
  }
