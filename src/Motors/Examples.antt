-- ===== src/Motors/Examples.antt =====
-- Calls of the motors on concrete actions.
use adeept_awr.Common.{true, List, [], ◌∷◌}
use adeept_awr.Vocabulary.{
  turn_left_to_follow_line, spin_left_in_place, turn_right_to_avoid_obstacle,
}
use adeept_awr.Motors.State.{works, initial_motors, Motors, halted}
use adeept_awr.Motors.Actions.{Call, set_up, execute, clean_up, calls}
use adeept_awr.Motors.Safety.{AreSafe, calls-AreSafe}

abbrev ready : Motors
ready = record { are_motors_initialized = true; left = halted; right = halted }

abbrev some_calls : List Call
some_calls =
    set_up works
    ∷ execute turn_left_to_follow_line 80
    ∷ execute spin_left_in_place 250
    ∷ execute turn_right_to_avoid_obstacle 60
    ∷ clean_up
    ∷ []

calls-AreSafe_example : AreSafe (calls some_calls initial_motors)
calls-AreSafe_example = calls-AreSafe some_calls
