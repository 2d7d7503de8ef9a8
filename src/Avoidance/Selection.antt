-- ===== src/Avoidance/Selection.antt =====
-- What a run of dangerous detections makes the system choose.
use adeept_awr.Vocabulary.{dangerous}
use adeept_awr.Common.{
  ◌+◌, ◌≡◌, true, false, some, List, [], ◌∷◌, ◌++◌, Float, arith, length, ltb, if◌then◌else◌,
  last_n, push,
}
use mathlib.Core.List.{append_assoc, reverse-append}
use adeept_awr.Common.{push-last_n, last_n-append, from_end, length-append}
use adeept_awr.Avoidance.State.{
  smart_side_selection, wall_following, detecting, DetectionRecord, AvoidanceState,
  obstacle_history_size,
}
use adeept_awr.Avoidance.Analysis.{
  stable, is_complex, is_emergency_distance, level_at, dangerous_count,
  analyze_obstacle_persistence_and_direction, trend_of, add_obstacle_detection_to_history,
  select_best_avoidance_strategy_based_on_situation,
}
use adeept_awr.Avoidance.Command.{Input}
use adeept_awr.Avoidance.Table.{chosen}
use adeept_awr.Avoidance.History.{record_of}

abbrev detections {ℓ} :
    {W : Type ℓ}
    → DetectionRecord W
    → DetectionRecord W
    → DetectionRecord W
    → List (DetectionRecord W)
detections a b c = a ∷ b ∷ c ∷ []

module _ {ℓ} {W : Type ℓ} where
  from_end-append :
      (xs : List (DetectionRecord W)) (a b c : DetectionRecord W)
      → (level_at (xs ++ detections a b c) 0 ≡ some c.danger_level)
        × (level_at (xs ++ detections a b c) 1 ≡ some b.danger_level)
  unfolding from_end
  from_end-append xs a b c =
      let e = reverse-append xs (detections a b c) in (rw (e, level_at), rw (e, level_at))

  dangerous_count-append :
      (xs ys : List (DetectionRecord W))
      → dangerous_count (xs ++ ys) ≡ dangerous_count xs + dangerous_count ys
  dangerous_count-append [] ys = omega arith
  dangerous_count-append (x ∷ xs) ys = omega (arith, dangerous_count-append xs ys)

  -- Three detections that were all `dangerous` are a persistent obstacle whose danger is stable.
  third_dangerous :
      (xs : List (DetectionRecord W)) (a b c : DetectionRecord W)
      → a.danger_level ≡ dangerous
      → b.danger_level ≡ dangerous
      → c.danger_level ≡ dangerous
      → let r = analyze_obstacle_persistence_and_direction (xs ++ detections a b c) in
        (r.is_persistent ≡ true) × (r.danger_trend ≡ stable)
  unfolding analyze_obstacle_persistence_and_direction trend_of
  third_dangerous xs a b c ha hb hc =
      let (l0, l1) = from_end-append (last_n 2 xs) a b c in
      let e = last_n-append 2 xs (detections a b c) in
      let long : ltb (length (xs ++ detections a b c)) 3 ≡ false =
        ground (arith, length-append xs (detections a b c)) in
      let dangers = dangerous_count-append (last_n 2 xs) (detections a b c) in
      rw (long, e, l0, l1, dangers, ha, hb, hc) (ground arith)

  third_kept :
      (past : List (DetectionRecord W)) (a b c : DetectionRecord W)
      → a.danger_level ≡ dangerous
      → b.danger_level ≡ dangerous
      → c.danger_level ≡ dangerous
      → let r =
          analyze_obstacle_persistence_and_direction
            (push obstacle_history_size (last_n obstacle_history_size (past ++ (a ∷ b ∷ []))) c) in
        (r.is_persistent ≡ true) × (r.danger_trend ≡ stable)
  third_kept past a b c ha hb hc =
      rw
        (
          push-last_n obstacle_history_size (past ++ (a ∷ b ∷ [])) c,
          append_assoc past (a ∷ b ∷ []) (c ∷ []),
          last_n-append 7 past (detections a b c),
        )
        (third_dangerous (last_n 7 past) a b c ha hb hc)

module _ {ℓ} {W : Type ℓ} ⦃f : Float W⦄ where
  -- When the two last detections were `dangerous` and the next one is so too, at a distance that is
  -- no emergency, a system that is not avoiding chooses to follow the wall where the line is lost or
  -- branches, and to scan both sides elsewhere; it never begins the simple manoeuvre.
  pub third_danger_chooses :
      (i : Input W) (past : List (DetectionRecord W)) (a b : DetectionRecord W)
      (s : AvoidanceState W)
      → s.current_phase ≡ detecting
      → s.detection_history ≡ last_n obstacle_history_size (past ++ (a ∷ b ∷ []))
      → a.danger_level ≡ dangerous
      → b.danger_level ≡ dangerous
      → i.danger_level ≡ dangerous
      → is_emergency_distance i.distance_cm ≡ false
      → chosen i s ≡ (if is_complex i.line_position then wall_following else smart_side_selection)
  unfolding chosen select_best_avoidance_strategy_based_on_situation
      add_obstacle_detection_to_history
  third_danger_chooses i past a b s d h ha hb hc e =
      ground (arith, third_kept past a b (record_of i) ha hb hc)
