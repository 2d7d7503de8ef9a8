-- ===== src/Robot/Cycle.antt =====
-- What one cycle does to the wheels, and when it raises.
use adeept_awr.Common.{
  ◌≡◌, refl, Bool, true, false, some, Float, Result, ok, raise, key_error, arith, Option-cases, inl,
  inr, ◌⊎◌,
}
use adeept_awr.Vocabulary.{
  DangerLevel, safe, caution, dangerous, very_dangerous, unknown, stop_all_motors,
}
use adeept_awr.Motors.Drive.{still, wheels, meaning, execute-wheels}
use adeept_awr.Rotary.Decision.{Decision}
use adeept_awr.Rotary.Command.{
  DrivingCommand, get_smart_driving_command_for_rotary_and_normal_sections,
}
use adeept_awr.Ultrasonic.Measure.{DistanceReport, get_ultra_reliable_distance_measurement}
use adeept_awr.Obstacle.Danger.{analyze_danger_level_from_distance}
use adeept_awr.Obstacle.Status.{
  ObstacleStatus, status_of, adjust_danger, get_complete_obstacle_status_and_recommendation,
}
use adeept_awr.Avoidance.State.{AvoidanceState}
use adeept_awr.Robot.State.{Robot}
use adeept_awr.Robot.Fusion.{
  emergency, obstacle_avoidance, CycleInput, FinalDecision, reduced, follow_line, avoid, decide_at,
  decide_final_robot_action_using_sensor_fusion, collect_all_sensor_data_and_analyze,
  execute_robot_control_command, complete, run_one_complete_control_cycle,
}

abbrev pub emergency_stop : FinalDecision
emergency_stop = record {
  final_action = stop_all_motors;
  final_speed = 0;
  priority_level = emergency;
  controlling_system = obstacle_avoidance;
}

-- What the program decides by the danger level and the decision of the line tracking.
abbrev pub planned : DangerLevel → Decision → Result FinalDecision
planned very_dangerous d = ok emergency_stop
planned dangerous d = raise key_error
planned caution d = ok (follow_line d (reduced d.speed))
planned _ d = ok (follow_line d d.speed)

unknown-adjust : (b : Bool) → adjust_danger b unknown ≡ unknown
unfolding adjust_danger
unknown-adjust true = refl
unknown-adjust false = refl

module _ {ℓ} {W : Type ℓ} ⦃f : Float W⦄ where
  -- What a cycle sees.
  abbrev pub line_of : CycleInput W → Robot W → Decision
  line_of i s =
      (get_smart_driving_command_for_rotary_and_normal_sections i.sample s.line_memory).1.decision

  abbrev pub obstacle_of : CycleInput W → Robot W → ObstacleStatus W
  obstacle_of i s = (collect_all_sensor_data_and_analyze i s).2

  abbrev pub level_of : CycleInput W → Robot W → DangerLevel
  level_of i s = (obstacle_of i s).danger_level

  abbrev measured_by : CycleInput W → Robot W → DistanceReport W
  measured_by i s =
      (get_ultra_reliable_distance_measurement
        (record {
          ready = s.is_ultrasonic_initialized;
          echoes = i.echoes;
          clock = i.distance_clock;
        })
        s.distances).1

  -- A level that speaks of a distance comes with one.
  level_has_distance :
      (r : DistanceReport W)
      → let o = status_of r in (o.danger_level ≡ unknown) ⊎ ((d : W) × (o.distance_cm ≡ some d))
  unfolding status_of analyze_danger_level_from_distance
  level_has_distance r = elim (Option-cases r.distance_cm) [
    | inl e ↦ inl (rw e (unknown-adjust r.is_sensor_healthy))
    | inr (d, e) ↦ inr (d, e)
  ]

  decide-planned :
      (p : DangerLevel) (i : CycleInput W) (c : DrivingCommand) (o : ObstacleStatus W)
      (a : AvoidanceState W)
      → (p ≡ unknown) ⊎ ((d : W) × (o.distance_cm ≡ some d))
      → decide_at p i c o a ≡ (a, planned p c.decision)
  unfolding decide_at avoid
  decide-planned safe i c o a h = refl
  decide-planned unknown i c o a h = refl
  decide-planned dangerous i c o a h = refl
  decide-planned caution i c o a (inr (d, e)) = rw e
  decide-planned very_dangerous i c o a (inr (d, e)) = rw e
  decide-planned caution i c o a (inl e) = ground arith
  decide-planned very_dangerous i c o a (inl e) = ground arith

  -- A cycle does what is planned for the danger level and the decision of the line tracking that it
  -- sees.
  pub cycle-planned :
      (i : CycleInput W) (s : Robot W)
      → run_one_complete_control_cycle i s
        ≡ complete
            (planned (level_of i s) (line_of i s))
            (collect_all_sensor_data_and_analyze i s).0
  unfolding run_one_complete_control_cycle decide_final_robot_action_using_sensor_fusion
      collect_all_sensor_data_and_analyze get_complete_obstacle_status_and_recommendation
  cycle-planned i s =
      let (t, c, o) = collect_all_sensor_data_and_analyze i s in
      rw (decide-planned (level_of i s) i c o s.avoidance (level_has_distance (measured_by i s)))

  -- A `dangerous` obstacle makes the cycle raise a `KeyError` before any motor is told anything.
  -- Otherwise the wheels turn as the plan says: they stand still for a very dangerous obstacle, they
  -- turn as the line tracking decides, at 70 percent of its speed, for one that asks for caution,
  -- and as the line tracking decides if the way is safe or the distance is unknown.
  pub cycle-wheels :
      (i : CycleInput W) (s : Robot W)
      → s.motors.are_motors_initialized ≡ true
      → let (t, r) = run_one_complete_control_cycle i s in
        let d = line_of i s in
        (level_of i s ≡ dangerous → (r ≡ raise key_error) × (t.motors ≡ s.motors))
        × (level_of i s ≡ very_dangerous → wheels t.motors ≡ (still, still))
        × (level_of i s ≡ caution → wheels t.motors ≡ meaning d.action (reduced d.speed))
        × (level_of i s ≡ safe → wheels t.motors ≡ meaning d.action d.speed)
        × (level_of i s ≡ unknown → wheels t.motors ≡ meaning d.action d.speed)
  unfolding complete execute_robot_control_command collect_all_sensor_data_and_analyze
  cycle-wheels i s h =
      let d = line_of i s in
      (
        λ e. rw (cycle-planned i s, e) (refl, refl),
        λ e. rw (cycle-planned i s, e) (execute-wheels stop_all_motors 0 s.motors h),
        λ e. rw (cycle-planned i s, e) (execute-wheels d.action (reduced d.speed) s.motors h),
        λ e. rw (cycle-planned i s, e) (execute-wheels d.action d.speed s.motors h),
        λ e. rw (cycle-planned i s, e) (execute-wheels d.action d.speed s.motors h),
      )
