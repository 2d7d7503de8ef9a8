-- ===== src/Robot/Fusion.antt =====
-- One control cycle of simple_robot_main.py: the sensors, the decision and its execution.
use adeept_awr.Common.{
  ℕ, ◌+◌, ◌*◌, ◌/◌, Option, none, some, Float, Result, ok, raise, key_error, type_error,
}
use adeept_awr.Vocabulary.{
  Position, DangerLevel, caution, dangerous, very_dangerous, Action, stop_all_motors,
}
use adeept_awr.Motors.Actions.{execute_driving_action_with_speed}
use adeept_awr.Rotary.Decision.{Decision}
use adeept_awr.Rotary.Command.{
  Sample, DrivingCommand, get_smart_driving_command_for_rotary_and_normal_sections,
}
use adeept_awr.Ultrasonic.Echo.{Echo}
use adeept_awr.Obstacle.Status.{ObstacleStatus, get_complete_obstacle_status_and_recommendation}
use adeept_awr.Avoidance.State.{AvoidanceState, AvoidanceStrategy}
use adeept_awr.Avoidance.Command.{Report, get_complete_obstacle_avoidance_command}
use adeept_awr.Robot.State.{Robot}

pub data ControllingSystem : Type 0 where
  obstacle_avoidance line_tracking : ControllingSystem
  advanced_obstacle_avoidance : AvoidanceStrategy → ControllingSystem

pub data PriorityLevel : Type 0 where
  emergency high normal : PriorityLevel

-- The returned dictionary but the text of its reason.
pub record FinalDecision : Type 0 where
  pub final_action : Action
  pub final_speed : ℕ
  pub priority_level : PriorityLevel
  pub controlling_system : ControllingSystem

-- What a cycle reads: the pins and the clock.
pub record CycleInput {ℓ} (W : Type ℓ) : Type ℓ where
  pub sample : Sample W
  pub echoes : ℕ → Echo W
  pub distance_clock : W
  pub avoidance_stamp : W
  pub avoidance_clock : W

-- `line_data["position"]`: the dictionary of the line tracking has the key `current_sensor` and no
-- key `position`.
abbrev pub line_position : DrivingCommand → Result Position
line_position c = raise key_error

-- `int(speed * 0.7)`. It is `speed * 7 / 10` rounded down for every speed from 0 to 100 but 90,
-- which the line tracking does not command.
abbrev pub reduced : ℕ → ℕ
reduced v = v * 7 / 10

abbrev pub follow_line : Decision → ℕ → FinalDecision
follow_line d v = record {
  final_action = d.action;
  final_speed = v;
  priority_level = normal;
  controlling_system = line_tracking;
}

module _ {ℓ} {W : Type ℓ} ⦃f : Float W⦄ where
  -- The reason of the first and of the third branch formats the distance, which raises on `None`.
  abbrev pub with_distance : Option W → FinalDecision → Result FinalDecision
  with_distance none d = raise type_error
  with_distance (some x) d = ok d

  abbrev pub from_avoidance : Result (Report W) → Result FinalDecision
  from_avoidance (raise e) = raise e
  from_avoidance (ok r) = ok (record {
    final_action = r.command.action;
    final_speed = r.command.speed;
    priority_level = high;
    controlling_system = advanced_obstacle_avoidance r.avoidance_strategy;
  })

  -- The call of the avoidance system, once its arguments are there.
  unfoldable pub avoid :
      Result Position
      → CycleInput W
      → ObstacleStatus W
      → AvoidanceState W
      → AvoidanceState W × Result FinalDecision
  avoid (raise e) i o a = (a, raise e)
  avoid (ok p) i o a =
      let (a', r) =
        get_complete_obstacle_avoidance_command
          (record {
            distance_cm = o.distance_cm;
            danger_level = o.danger_level;
            line_position = p;
            stamp = i.avoidance_stamp;
            clock = i.avoidance_clock;
          })
          a in
      (a', from_avoidance r)

  unfoldable pub decide_at :
      DangerLevel
      → CycleInput W
      → DrivingCommand
      → ObstacleStatus W
      → AvoidanceState W
      → AvoidanceState W × Result FinalDecision
  unfolding avoid
  decide_at very_dangerous i c o a = (
    a,
    with_distance o.distance_cm (record {
      final_action = stop_all_motors;
      final_speed = 0;
      priority_level = emergency;
      controlling_system = obstacle_avoidance;
    }),
  )
  decide_at dangerous i c o a = avoid (line_position c) i o a
  decide_at caution i c o a =
      (a, with_distance o.distance_cm (follow_line c.decision (reduced c.decision.speed)))
  decide_at _ i c o a = (a, ok (follow_line c.decision c.decision.speed))

  unfoldable pub decide_final_robot_action_using_sensor_fusion :
      CycleInput W
      → DrivingCommand
      → ObstacleStatus W
      → AvoidanceState W
      → AvoidanceState W × Result FinalDecision
  unfolding decide_at
  decide_final_robot_action_using_sensor_fusion i c o a = decide_at o.danger_level i c o a

  unfoldable pub collect_all_sensor_data_and_analyze :
      CycleInput W → Robot W → Robot W × DrivingCommand × ObstacleStatus W
  collect_all_sensor_data_and_analyze i s =
      let (l, c) =
        get_smart_driving_command_for_rotary_and_normal_sections i.sample s.line_memory in
      let (d, o) =
        get_complete_obstacle_status_and_recommendation
          (record {
            ready = s.is_ultrasonic_initialized;
            echoes = i.echoes;
            clock = i.distance_clock;
          })
          s.distances in
      (record s { line_memory = l; distances = d }, c, o)

  unfoldable pub execute_robot_control_command : FinalDecision → Robot W → Robot W
  execute_robot_control_command d s = record s {
    motors = execute_driving_action_with_speed d.final_action d.final_speed s.motors;
  }

  unfoldable pub complete : Result FinalDecision → Robot W → Robot W × Result FinalDecision
  complete (raise e) s = (s, raise e)
  complete (ok d) s =
      let s' = execute_robot_control_command d s in
      (record s' { total_control_loops = s'.total_control_loops + 1 }, ok d)

  unfoldable pub run_one_complete_control_cycle :
      CycleInput W → Robot W → Robot W × Result FinalDecision
  unfolding complete
  run_one_complete_control_cycle i s =
      let (s', c, o) = collect_all_sensor_data_and_analyze i s in
      let (a, d) = decide_final_robot_action_using_sensor_fusion i c o s'.avoidance in
      complete d (record s' { avoidance = a })
