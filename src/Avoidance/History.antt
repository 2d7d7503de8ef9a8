-- ===== src/Avoidance/History.antt =====
-- The history of detections: the last ten of all that were recorded, and what three dangerous
-- ones in a row lead to.
use adeept_awr.Common.{◌≡◌, ap, ◌∙◌, List, [], ◌∷◌, ◌++◌, map, Float, last_n, push}
use mathlib.Core.List.{append-nil, append_assoc}
use adeept_awr.Common.{push-last_n}
use adeept_awr.Avoidance.State.{DetectionRecord, AvoidanceState, obstacle_history_size}
use adeept_awr.Avoidance.Analysis.{add_obstacle_detection_to_history}
use adeept_awr.Avoidance.Command.{Input, get_complete_obstacle_avoidance_command, run}
use adeept_awr.Avoidance.Invariant.{respond-history}

abbrev pub record_of {ℓ} : {W : Type ℓ} → Input W → DetectionRecord W
record_of i = record {
  distance = i.distance_cm;
  danger_level = i.danger_level;
  timestamp = i.stamp;
}

module _ {ℓ} {W : Type ℓ} ⦃f : Float W⦄ where
  command-history :
      (i : Input W) (s : AvoidanceState W) (past : List (DetectionRecord W))
      → s.detection_history ≡ last_n obstacle_history_size past
      → (get_complete_obstacle_avoidance_command i s).0.detection_history
        ≡ last_n obstacle_history_size (past ++ (record_of i ∷ []))
  unfolding get_complete_obstacle_avoidance_command add_obstacle_detection_to_history
  command-history i s past h =
      respond-history i (add_obstacle_detection_to_history i.distance_cm i.danger_level i.stamp s)
      ∙ ap (λ (l : List (DetectionRecord W)). push obstacle_history_size l (record_of i)) h
      ∙ push-last_n obstacle_history_size past (record_of i)

  -- After any calls the history is the last ten entries of all detections, the old ones first,
  -- whatever the calls returned or raised.
  pub run-history :
      (past : List (DetectionRecord W)) (is : List (Input W)) (s : AvoidanceState W)
      → s.detection_history ≡ last_n obstacle_history_size past
      → (run is s).0.detection_history ≡ last_n obstacle_history_size (past ++ map record_of is)
  unfolding run
  run-history past [] s h = rw append-nil h
  run-history past (i ∷ is) s h = rw (← append_assoc past (record_of i ∷ []) (map record_of is)) (
      run-history (past ++ (record_of i ∷ [])) is (get_complete_obstacle_avoidance_command i s).0
        (command-history i s past h))
