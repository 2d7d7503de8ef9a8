-- ===== src/FunctionalCar/Following.antt =====
-- The line following of functional_line_car_v2.py.
use adeept_awr.Common.{
  ◌+◌, Option, none, some, if◌then◌else◌, ltb, ◌==◌, ◌||◌, ℤ, is_zero, is_negative, magnitude,
}
use adeept_awr.FunctionalCar.State.{Car}
use adeept_awr.FunctionalCar.Turns.{
  gentle, sharp, left, right, stop_motors, drive_forward, execute_left_turn, execute_right_turn,
  execute_left_turn_with_intensity, execute_right_turn_with_intensity, search_line_by_rotation,
}

module _ {ℓ} {W : Type ℓ} where
  abbrev pub right_turn_for : ℤ → Car W → Car W
  right_turn_for position s =
      if ltb 7 (magnitude position)
      then execute_right_turn_with_intensity sharp s
      else if ltb 3 (magnitude position)
      then execute_right_turn s
      else execute_right_turn_with_intensity gentle s

  abbrev pub left_turn_for : ℤ → Car W → Car W
  left_turn_for position s =
      if ltb 7 (magnitude position)
      then execute_left_turn_with_intensity sharp s
      else if ltb 3 (magnitude position)
      then execute_left_turn s
      else execute_left_turn_with_intensity gentle s

  unfoldable pub execute_line_following_drive : ℤ → Car W → Car W
  execute_line_following_drive position s =
      if is_zero position
      then drive_forward none s
      else if is_negative position
      then right_turn_for position s
      else left_turn_for position s

  abbrev pub count_lost_line : Car W → Car W
  count_lost_line s = record s {
    statistics = record s.statistics { line_lost_count = s.statistics.line_lost_count + 1 };
  }

  -- `last_line_position <= 0`
  abbrev pub search_again : Car W → Car W
  search_again s =
      if is_zero s.last_line_position || is_negative s.last_line_position
      then search_line_by_rotation left s
      else search_line_by_rotation right s

  unfoldable pub handle_line_lost_situation : Car W → Car W
  handle_line_lost_situation s =
      let s' = record s { line_lost_counter = s.line_lost_counter + 1 } in
      if ltb 5 s'.line_lost_counter
      then search_again (if s'.line_lost_counter == 6 then count_lost_line s' else s')
      else stop_motors s'

  unfoldable pub execute_line_following_control_logic : Option ℤ → Car W → Car W
  execute_line_following_control_logic none s = handle_line_lost_situation s
  execute_line_following_control_logic (some position) s =
      execute_line_following_drive position
        (record s { line_lost_counter = 0; last_line_position = position })
