-- ===== src/Controller/Rotary.antt =====
-- `RotaryFrequencyAnalyzer` and `EnhancedRotaryLineSensor` of autonomous_robot/utils/rotary_handler.py,
-- with the window of 15 that the controller gives. The times in the history are never read and are
-- left out, as are the counters, which are counted again from the history at each observation.
use adeept_awr.Common.{
  ℕ, ◌+◌, ◌-◌, Bool, true, false, ◌&&◌, Option, some, List, [], ◌∷◌, reverse, Float, of_ℕ,
  if◌then◌else◌, ltb, leb, ◌==◌, length, count, last_n, from_end, push,
}
use adeept_awr.Vocabulary.{Position, left, center, right, lost}
use adeept_awr.Controller.Line.{
  DriveAction, forward, backward, turn_left, turn_right, pivot_left, pivot_right, Reading,
  RotaryState, normal, entering_rotary, in_rotary, exiting_rotary, LineCommand, state_is,
}

pub record RotaryDecision : Type 0 where
  pub action : DriveAction
  pub speed : ℕ
  pub confidence_tenths : ℕ
  pub rotary_state : RotaryState

pub record Analyzer {ℓ} (W : Type ℓ) : Type ℓ where
  pub direction_history : List Position
  pub position_history : List Reading
  pub consecutive_left : ℕ
  pub consecutive_right : ℕ
  pub consecutive_center : ℕ
  pub consecutive_lost : ℕ
  pub current_rotary_state : RotaryState
  pub rotary_entry_time : W
  pub in_rotary_duration : W

abbrev pub is_left : Position → Bool
is_left left = true
is_left _ = false

abbrev pub is_right : Position → Bool
is_right right = true
is_right _ = false

abbrev pub is_center : Position → Bool
is_center center = true
is_center _ = false

abbrev pub is_lost : Position → Bool
is_lost lost = true
is_lost _ = false

abbrev pub next_count : Bool → ℕ → ℕ
next_count seen n = if seen then n + 1 else 0

unfoldable pub detect_rotary_entry : List Position → Bool
detect_rotary_entry history =
    let recent_positions = last_n 6 history in
    let l = count is_left recent_positions in
    let r = count is_right recent_positions in
    if ltb (length history) 6 then false else leb 2 l && leb 2 r && leb (l - r) 2 && leb (r - l) 2

-- The action for the last clear position, in a list that begins with the newest.
unfoldable pub trend_of : List Position → DriveAction
trend_of [] = forward
trend_of (left ∷ ps) = turn_right
trend_of (right ∷ ps) = turn_left
trend_of (center ∷ ps) = forward
trend_of (_ ∷ ps) = trend_of ps

unfoldable pub analyze_recent_trend : List Position → DriveAction
analyze_recent_trend history =
    if ltb (length history) 5 then forward else trend_of (reverse (last_n 5 history))

module _ {ℓ} {W : Type ℓ} where
  unfoldable pub update_consecutive_counters : Position → Analyzer W → Analyzer W
  update_consecutive_counters p s = record s {
    consecutive_left = next_count (is_left p) s.consecutive_left;
    consecutive_right = next_count (is_right p) s.consecutive_right;
    consecutive_center = next_count (is_center p) s.consecutive_center;
    consecutive_lost = next_count (is_lost p) s.consecutive_lost;
  }

  abbrev pub decision : Analyzer W → DriveAction → ℕ → ℕ → RotaryDecision
  decision s a v c = record {
    action = a;
    speed = v;
    confidence_tenths = c;
    rotary_state = s.current_rotary_state;
  }

module _ {ℓ} {W : Type ℓ} ⦃f : Float W⦄ where
  -- Where the pattern of an entry is not seen.
  unfoldable pub progress : RotaryState → W → Analyzer W → Analyzer W
  progress entering_rotary now s =
      if f.lt (of_ℕ 1) (f.sub now s.rotary_entry_time)
      then record s { current_rotary_state = in_rotary }
      else s
  progress in_rotary now s =
      if leb 5 s.consecutive_center then record s { current_rotary_state = exiting_rotary } else s
  progress exiting_rotary now s =
      if leb 10 s.consecutive_center
      then record s {
        current_rotary_state = normal;
        in_rotary_duration = f.sub now s.rotary_entry_time;
      }
      else s
  progress normal now s = s

  unfoldable pub enter : RotaryState → W → Analyzer W → Analyzer W
  enter normal now s = record s { current_rotary_state = entering_rotary; rotary_entry_time = now }
  enter _ now s = s

  unfoldable pub update_rotary_state : W → Analyzer W → Analyzer W
  unfolding progress enter
  update_rotary_state now s =
      if detect_rotary_entry s.direction_history
      then enter s.current_rotary_state now s
      else progress s.current_rotary_state now s

  unfoldable pub add_observation : Position → Reading → W → Analyzer W → Analyzer W
  add_observation p r now s = update_rotary_state now (
      update_consecutive_counters p (record s {
        direction_history = push 15 s.direction_history p;
        position_history = push 15 s.position_history r;
      }))

  unfoldable pub normal_decision : Option Position → Analyzer W → RotaryDecision
  normal_decision (some center) s = decision s forward 100 9
  normal_decision (some left) s = decision s pivot_right 80 8
  normal_decision (some right) s = decision s pivot_left 80 8
  normal_decision _ s = decision s backward 50 5

  unfoldable pub entering_rotary_decision : Analyzer W → RotaryDecision
  entering_rotary_decision s =
      let l = count is_left s.direction_history in
      let r = count is_right s.direction_history in
      let c = count is_center s.direction_history in
      let total = l + r + c in
      if total == 0
      then decision s forward 40 3
      else if f.le (f.mul (of_ℕ total) (f.lit 4 10)) (of_ℕ c)
      then decision s forward 60 7
      else if f.lt (f.mul (of_ℕ r) (f.lit 15 10)) (of_ℕ l)
      then decision s turn_right 50 6
      else if f.lt (f.mul (of_ℕ l) (f.lit 15 10)) (of_ℕ r)
      then decision s turn_left 50 6
      else decision s forward 45 5

  abbrev pub ratio_with_bonus : ℕ → ℕ → ℕ → W
  ratio_with_bonus n total consecutive =
      let ratio = f.div (of_ℕ n) (of_ℕ total) in
      if leb 3 consecutive then f.add ratio (f.lit 1 10) else ratio

  unfoldable pub decide_by_ratio : W → W → W → Analyzer W → RotaryDecision
  decide_by_ratio left_ratio right_ratio center_ratio s =
      if f.le (f.lit 6 10) center_ratio
      then decision s forward 70 8
      else if f.le (f.lit 6 10) left_ratio && f.lt (f.mul right_ratio (of_ℕ 2)) left_ratio
      then decision s turn_right 55 7
      else if f.le (f.lit 6 10) right_ratio && f.lt (f.mul left_ratio (of_ℕ 2)) right_ratio
      then decision s turn_left 55 7
      else decision s (analyze_recent_trend s.direction_history) 45 5

  unfoldable pub in_rotary_decision : Analyzer W → RotaryDecision
  unfolding decide_by_ratio
  in_rotary_decision s =
      let l = count is_left s.direction_history in
      let r = count is_right s.direction_history in
      let c = count is_center s.direction_history in
      let total = l + r + c in
      if total == 0
      then decision s forward 30 2
      else decide_by_ratio (ratio_with_bonus l total s.consecutive_left)
          (ratio_with_bonus r total s.consecutive_right)
          (ratio_with_bonus c total s.consecutive_center) s

  unfoldable pub decide_in : RotaryState → Analyzer W → RotaryDecision
  decide_in normal s = normal_decision (from_end s.direction_history 0) s
  decide_in entering_rotary s = entering_rotary_decision s
  decide_in in_rotary s = in_rotary_decision s
  decide_in exiting_rotary s = decision s forward 80 9

  unfoldable pub get_frequency_decision : Analyzer W → RotaryDecision
  unfolding decide_in
  get_frequency_decision s =
      if ltb (length s.direction_history) 3
      then decision s forward 60 3
      else decide_in s.current_rotary_state s

  -- `get_enhanced_driving_direction`, after the basic command; the statistics are left out.
  unfoldable pub enhance : LineCommand → Position → W → Analyzer W → Analyzer W × LineCommand
  enhance basic p now s =
      let s' = add_observation p basic.sensor_values now s in
      let d = get_frequency_decision s' in
      (
        s',
        record {
          action = d.action;
          speed = d.speed;
          line_position = state_is d.rotary_state;
          sensor_values = basic.sensor_values;
          confidence_tenths = d.confidence_tenths;
        },
      )
