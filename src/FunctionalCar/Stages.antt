-- ===== src/FunctionalCar/Stages.antt =====
-- The avoidance of an obstacle in three stages: to the left, ahead, and to the right.
use adeept_awr.Common.{
  ℕ, ◌+◌, Bool, true, false, Float, of_ℕ, if◌then◌else◌, ◌==◌, ℤ, pos, neg, scaled,
}
use adeept_awr.FunctionalCar.State.{Car}
use adeept_awr.FunctionalCar.Turns.{set_motor_speeds}

pub data ObstacleDanger : Type 0 where
  danger warning caution safe : ObstacleDanger

abbrev pub avoidance_turn_speed : ℤ
avoidance_turn_speed = pos 50

abbrev pub avoidance_forward_speed : ℤ
avoidance_forward_speed = pos 45

unfoldable pub apply_speed_reduction : ℤ → ℕ → ℤ
apply_speed_reduction base_speed reduction_tenths = scaled reduction_tenths base_speed

module _ {ℓ} {W : Type ℓ} where
  unfoldable pub execute_avoidance_stage1_left_turn : Car W → Car W
  unfolding set_motor_speeds
  execute_avoidance_stage1_left_turn s =
      set_motor_speeds avoidance_turn_speed (neg avoidance_turn_speed) s

  unfoldable pub execute_avoidance_stage2_forward : Car W → Car W
  unfolding set_motor_speeds
  execute_avoidance_stage2_forward s =
      set_motor_speeds avoidance_forward_speed avoidance_forward_speed s

  unfoldable pub execute_avoidance_stage3_right_turn : Car W → Car W
  unfolding set_motor_speeds
  execute_avoidance_stage3_right_turn s =
      set_motor_speeds (neg avoidance_turn_speed) avoidance_turn_speed s

  unfoldable pub start_obstacle_avoidance : W → Car W → Car W
  start_obstacle_avoidance now s = if s.obstacle_avoidance_active then s else record s {
    obstacle_avoidance_active = true;
    avoidance_stage = 1;
    avoidance_start_time = now;
    statistics = record s.statistics {
      avoidance_action_count = s.statistics.avoidance_action_count + 1;
    };
  }

  unfoldable pub force_stop_obstacle_avoidance : Car W → Car W
  force_stop_obstacle_avoidance s =
      if s.obstacle_avoidance_active
      then record s { obstacle_avoidance_active = false; avoidance_stage = 0 }
      else s

  abbrev pub next_stage : ℕ → W → Car W → Car W
  next_stage stage now s = record s { avoidance_stage = stage; avoidance_start_time = now }

  abbrev pub complete_avoidance : Car W → Car W
  complete_avoidance s = record s { obstacle_avoidance_active = false; avoidance_stage = 0 }

module _ {ℓ} {W : Type ℓ} ⦃f : Float W⦄ where
  unfoldable pub evaluate_obstacle_danger_level : W → ObstacleDanger
  evaluate_obstacle_danger_level distance =
      if f.le distance (of_ℕ 20)
      then danger
      else if f.le distance (of_ℕ 35)
      then warning
      else if f.le distance (of_ℕ 50)
      then caution
      else safe

  abbrev pub left_turn_time : W
  left_turn_time = f.lit 8 10

  abbrev pub forward_time : W
  forward_time = f.lit 12 10

  abbrev pub right_turn_time : W
  right_turn_time = f.lit 8 10

  -- `elapsed_time >= duration`
  abbrev pub has_lasted : W → W → Car W → Bool
  has_lasted duration now s = f.le duration (f.sub now s.avoidance_start_time)

  unfoldable pub process_stage_1 : W → Car W → Car W × Bool
  unfolding execute_avoidance_stage1_left_turn
  process_stage_1 now s =
      let s' = execute_avoidance_stage1_left_turn s in
      (if has_lasted left_turn_time now s then next_stage 2 now s' else s', true)

  unfoldable pub process_stage_2 : W → Car W → Car W × Bool
  unfolding execute_avoidance_stage2_forward
  process_stage_2 now s =
      let s' = execute_avoidance_stage2_forward s in
      (if has_lasted forward_time now s then next_stage 3 now s' else s', true)

  unfoldable pub process_stage_3 : W → Car W → Car W × Bool
  unfolding execute_avoidance_stage3_right_turn
  process_stage_3 now s =
      let s' = execute_avoidance_stage3_right_turn s in
      if has_lasted right_turn_time now s then (complete_avoidance s', false) else (s', true)

  -- The second component says whether the avoidance goes on.
  unfoldable pub process_avoidance_stages : W → Car W → Car W × Bool
  unfolding process_stage_1 process_stage_2 process_stage_3
  process_avoidance_stages now s =
      if s.obstacle_avoidance_active
      then if s.avoidance_stage == 1
        then process_stage_1 now s
        else if s.avoidance_stage == 2
        then process_stage_2 now s
        else if s.avoidance_stage == 3
        then process_stage_3 now s
        else (s, true)
      else (s, false)
