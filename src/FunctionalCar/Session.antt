-- ===== src/FunctionalCar/Session.antt =====
-- The control thread and the user of functional_line_car_v2.py. A thread stands before the test of
-- its loop or behind it; the steps of the threads and of the user come in any order. A test of the
-- user sleeps between its steps.
use adeept_awr.Common.{
  ℕ, true, false, Option, none, some, List, [], ◌∷◌, ◌++◌, Float, of_ℕ, if◌then◌else◌, get_elem?,
  set_elem,
}
use adeept_awr.Hardware.{stop_gear}
use adeept_awr.FunctionalCar.State.{Car, Input}
use adeept_awr.FunctionalCar.Turns.{
  Intensity, gentle, sharp, stop_motors, drive_forward, execute_left_turn, execute_right_turn,
  execute_left_turn_with_intensity, execute_right_turn_with_intensity,
}
use adeept_awr.FunctionalCar.Stages.{
  execute_avoidance_stage1_left_turn, execute_avoidance_stage2_forward,
  execute_avoidance_stage3_right_turn, start_obstacle_avoidance, force_stop_obstacle_avoidance,
}
use adeept_awr.FunctionalCar.Cycle.{execute_integrated_driving_control}

pub data Thread : Type 0 where
  at_test in_body ended : Thread

pub record Program {ℓ} (W : Type ℓ) : Type ℓ where
  pub car : Car W
  pub threads : List Thread

-- What the user can bring about between two sleeps. The driving is stopped only by the cleanup that
-- ends a session; a history is any sequence of steps, also one that no session has.
pub data UserStep : Type 0 where
  start_driving show_statistics clean_up : UserStep
  start_avoidance stage_1 stage_2 stage_3 end_avoidance halt : UserStep
  turn_left turn_right go_forward : UserStep
  turn_left_at turn_right_at : Intensity → UserStep

pub data Event {ℓ} (W : Type ℓ) : Type ℓ where
  -- with the clock
  user : W → UserStep → Event W
  -- with the number of the thread
  thread : ℕ → Input W → Event W

pub data Command : Type 0 where
  command_s command_q command_h command_c command_stat command_test_line : Command
  command_test_ultra command_test_avoid command_test_turn nothing unknown : Command

unfoldable pub test_obstacle_avoidance : List UserStep
test_obstacle_avoidance = start_avoidance ∷ stage_1 ∷ stage_2 ∷ stage_3 ∷ end_avoidance ∷ halt ∷ []

unfoldable pub test_turn_movements : List UserStep
test_turn_movements =
    turn_left_at gentle
    ∷ turn_left
    ∷ turn_left_at sharp
    ∷ turn_right_at gentle
    ∷ turn_right
    ∷ turn_right_at sharp
    ∷ go_forward
    ∷ halt
    ∷ []

unfoldable pub steps_of : Command → List UserStep
steps_of command_s = start_driving ∷ []
steps_of command_stat = show_statistics ∷ []
steps_of command_test_avoid = test_obstacle_avoidance
steps_of command_test_turn = test_turn_movements
steps_of _ = []

-- The steps of a session, whose commands come to an end with `q` or with a Ctrl+C.
unfoldable pub execute_interactive_control_mode : List Command → List UserStep
execute_interactive_control_mode [] = clean_up ∷ []
execute_interactive_control_mode (command_q ∷ cs) = clean_up ∷ []
execute_interactive_control_mode (c ∷ cs) = steps_of c ++ execute_interactive_control_mode cs

unfoldable pub execute_auto_mode : List UserStep
execute_auto_mode = start_driving ∷ clean_up ∷ []

module _ {ℓ} {W : Type ℓ} ⦃f : Float W⦄ where
  unfoldable pub update_statistics : W → Car W → Car W
  update_statistics now s =
      if f.lt (of_ℕ 0) s.statistics.start_time
      then record s {
        statistics = record s.statistics { total_driving_time = f.sub now s.statistics.start_time };
      }
      else s

  unfoldable pub start_autonomous_driving : W → Program W → Program W
  start_autonomous_driving now p = if p.car.is_running then p else record {
    car = record p.car {
      is_running = true;
      statistics = record p.car.statistics { start_time = now };
    };
    threads = p.threads ++ (at_test ∷ []);
  }

  unfoldable pub stop_autonomous_driving : W → Car W → Car W
  unfolding update_statistics
  stop_autonomous_driving now s =
      update_statistics now (stop_motors (record s { is_running = false }))

  -- `cleanup` of the motor controller stops the motors once more.
  unfoldable pub cleanup_system : W → Car W → Car W
  unfolding stop_autonomous_driving stop_motors
  cleanup_system now s =
      let s' = stop_autonomous_driving now s in
      record s' { motor_controller = stop_gear s'.motor_controller }

  unfoldable pub take : W → UserStep → Car W → Car W
  take now start_driving s = s
  take now show_statistics s = update_statistics now s
  take now clean_up s = cleanup_system now s
  take now start_avoidance s = start_obstacle_avoidance now s
  take now stage_1 s = execute_avoidance_stage1_left_turn s
  take now stage_2 s = execute_avoidance_stage2_forward s
  take now stage_3 s = execute_avoidance_stage3_right_turn s
  take now end_avoidance s = force_stop_obstacle_avoidance s
  take now halt s = stop_motors s
  take now turn_left s = execute_left_turn s
  take now turn_right s = execute_right_turn s
  take now go_forward s = drive_forward none s
  take now (turn_left_at i) s = execute_left_turn_with_intensity i s
  take now (turn_right_at i) s = execute_right_turn_with_intensity i s

  -- `execute_main_control_loop`, one step of it: the test and what follows the loop, or the body.
  unfoldable pub control_loop_step : Input W → Thread → Car W → Car W × Thread
  control_loop_step i at_test s = if s.is_running then (s, in_body) else (stop_motors s, ended)
  control_loop_step i in_body s = (execute_integrated_driving_control i s, at_test)
  control_loop_step i ended s = (s, ended)

  abbrev pub thread_at : ℕ → Input W → Option Thread → Program W → Program W
  thread_at k i none p = p
  thread_at k i (some t) p =
      let (s, t') = control_loop_step i t p.car in
      record { car = s; threads = set_elem p.threads k t' }

  abbrev pub user_step : W → UserStep → Program W → Program W
  user_step now start_driving p = start_autonomous_driving now p
  user_step now u p = record p { car = take now u p.car }

  unfoldable pub happen : Event W → Program W → Program W
  happen (user now u) p = user_step now u p
  happen (thread k i) p = thread_at k i (get_elem? p.threads k) p

  unfoldable pub history : List (Event W) → Program W → Program W
  history [] p = p
  history (e ∷ es) p = history es (happen e p)
