-- ===== src/Avoidance/Examples.antt =====
-- Runs of the avoidance system on concrete inputs, in thousandths of a centimetre and a second.
use adeept_awr.Vocabulary.{
  DangerLevel, safe, caution, dangerous, unknown, Position, center, stop_all_motors,
}
use adeept_awr.Common.{
  ℕ, zero, suc, ◌≡◌, refl, Option, none, some, List, [], ◌∷◌, fixed_float, arith, All, last_n,
  from_end, push, raise, attribute_error,
}
use adeept_awr.Avoidance.State.{
  simple_right_turn, smart_side_selection, wall_following, reverse_and_retry, emergency_stop,
  detecting, planning, avoiding, completed, AvoidanceState, initial_state, reset_avoidance_state,
}
use adeept_awr.Avoidance.Analysis.{
  analyze_obstacle_persistence_and_direction, trend_of, add_obstacle_detection_to_history,
  select_best_avoidance_strategy_based_on_situation,
}
use adeept_awr.Avoidance.Strategies.{execute_simple_right_turn_avoidance}
use adeept_awr.Avoidance.Command.{
  Input, execute_selected_avoidance_strategy, get_complete_obstacle_avoidance_command, run,
}
use adeept_awr.Avoidance.Table.{Runs, Says, At, chosen, call-plan}
use adeept_awr.Avoidance.Outcomes.{Replies, command-Replies}
use adeept_awr.Avoidance.DeadEnd.{IsStuck}
use adeept_awr.Avoidance.Wall.{IsGood}
use adeept_awr.Avoidance.History.{record_of}
use adeept_awr.Avoidance.Maneuvers.{to_move, smart_dead_end}

abbrev reading : Option ℕ → DangerLevel → Position → Input ℕ
reading d level p = record {
  distance_cm = d;
  danger_level = level;
  line_position = p;
  stamp = 1000;
  clock = 2000;
}

-- 15 cm ahead, on the line
abbrev near : Input ℕ
near = reading (some 15000) dangerous center

abbrev clear : Input ℕ
clear = reading (some 90000) safe center

abbrev blind : Input ℕ
blind = reading none unknown center

abbrev wall : Input ℕ
wall = reading (some 30000) caution center

abbrev replicate {ℓ} : {A : Type ℓ} → ℕ → A → List A
replicate zero a = []
replicate (suc n) a = a ∷ replicate n a

abbrev start : AvoidanceState ℕ
start = record {
  current_strategy = simple_right_turn;
  current_phase = detecting;
  start_time = 0;
  step_count = 0;
  detection_history = [];
  successful_avoidances = 0;
  failed_avoidances = 0;
}

-- after two dangerous detections, seen on the way
abbrev warned : AvoidanceState ℕ
warned = record start { detection_history = record_of near ∷ record_of near ∷ [] }

-- dangerous three times, then safe for once
abbrev worsening : AvoidanceState ℕ
worsening = record start {
  detection_history = record_of near ∷ record_of near ∷ record_of near ∷ record_of clear ∷ [];
}

start_lem : initial_state ≡ start
unfolding initial_state
start_lem = refl

-- A whole simple manoeuvre is counted as a success.
simple_counts : (run (near ∷ replicate 5 clear) start).0.successful_avoidances ≡ 1
unfolding run get_complete_obstacle_avoidance_command
    select_best_avoidance_strategy_based_on_situation add_obstacle_detection_to_history
    analyze_obstacle_persistence_and_direction trend_of push last_n from_end
    execute_selected_avoidance_strategy execute_simple_right_turn_avoidance reset_avoidance_state
simple_counts = refl

command-Replies_example :
    let (t, r) = get_complete_obstacle_avoidance_command near start in Replies near start t r
command-Replies_example = command-Replies near start (omega arith)

near-Runs_simple : Runs simple_right_turn near start
unfolding chosen select_best_avoidance_strategy_based_on_situation add_obstacle_detection_to_history
    analyze_obstacle_persistence_and_direction trend_of push last_n from_end
near-Runs_simple = record { strategy = refl; danger = λ e. refl }

near-Runs_smart : Runs smart_side_selection near warned
unfolding chosen select_best_avoidance_strategy_based_on_situation add_obstacle_detection_to_history
    analyze_obstacle_persistence_and_direction trend_of push last_n from_end
near-Runs_smart = record { strategy = refl; danger = λ e. refl }

near-Runs_reverse : Runs reverse_and_retry near worsening
unfolding chosen select_best_avoidance_strategy_based_on_situation add_obstacle_detection_to_history
    analyze_obstacle_persistence_and_direction trend_of push last_n from_end
near-Runs_reverse = record { strategy = refl; danger = λ e. refl }

call-plan_example :
    let (s', r) = get_complete_obstacle_avoidance_command near start in
    At simple_right_turn planning 0 s' × Says stop_all_motors 0 r
call-plan_example =
    call-plan simple_right_turn detecting 0 near start (to_move planning 0 stop_all_motors 0)
      near-Runs_simple refl refl refl

smart_dead_end_example :
    let t = (run (near ∷ replicate 5 clear) warned).0 in
    IsStuck (run (clear ∷ near ∷ []) t).0
    × All (λ r. r ≡ raise attribute_error) (run (clear ∷ near ∷ []) t).1
smart_dead_end_example =
    smart_dead_end near (replicate 5 clear) (clear ∷ near ∷ []) warned refl refl near-Runs_smart
      refl

abbrev stopped : AvoidanceState ℕ
stopped = record start { current_strategy = emergency_stop; current_phase = completed }

abbrev following : AvoidanceState ℕ
following = record start { current_strategy = wall_following; current_phase = avoiding }

wall-IsGood : IsGood wall
wall-IsGood = (30000, refl, refl, refl)

replicate-All {ℓ κ} : {A : Type ℓ} (P : A → Type κ) (n : ℕ) (a : A) → P a → All P (replicate n a)
replicate-All P zero a h = tt
replicate-All P (suc n) a h = (h, replicate-All P n a h)
