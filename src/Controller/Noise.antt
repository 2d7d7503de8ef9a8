-- ===== src/Controller/Noise.antt =====
-- What the filter of the line sensor makes of two readings.
use adeept_awr.Common.{
  ◌≤◌, ◌≡◌, Bool, ◌||◌, Option, List, [], ◌∷◌, ◌++◌, arith, length, last_n, push,
}
use adeept_awr.Controller.Line.{
  Reading, LineSensor, read_sensor_raw, filter_history, is_half, read_sensor_filtered,
}

-- Whether each sensor shows the line in one of the two readings.
abbrev pub either : Reading → Reading → Reading
either a b = record {
  on_left = a.on_left || b.on_left;
  on_center = a.on_center || b.on_center;
  on_right = a.on_right || b.on_right;
}

abbrev pub sensor_with : Bool → List Reading → LineSensor
sensor_with ready history = record { is_initialized = ready; sensor_history = history }

half-or :
    (sensor : Reading → Bool) (a b : Reading) → is_half sensor (a ∷ b ∷ []) ≡ (sensor a || sensor b)
half-or sensor a b = ground arith

filter-pair :
    (a b : Reading) (before : List Reading)
    → length before ≤ 1
    → filter_history b (before ++ (a ∷ b ∷ [])) ≡ either a b
unfolding filter_history last_n
filter-pair a b [] h =
    rw (half-or (λ r. r.on_left) a b, half-or (λ r. r.on_center) a b, half-or (λ r. r.on_right) a b)
filter-pair a b (c ∷ []) h =
    rw (half-or (λ r. r.on_left) a b, half-or (λ r. r.on_center) a b, half-or (λ r. r.on_right) a b)
filter-pair a b (c ∷ d ∷ cs) h = let no : ⊥ = omega (arith, h) in elim no [ ]

-- After a first reading, what is reported for a sensor is whether it saw the line in this reading or
-- in the one before: a single wrong reading is reported twice, and no majority is taken. The
-- history before the last reading has at most two entries.
pub filtered-either :
    (pins : Option Reading) (before : List Reading) (last : Reading) (ready : Bool)
    → length before ≤ 2
    → let s = sensor_with ready (before ++ (last ∷ [])) in
      (read_sensor_filtered pins s).1 ≡ either last (read_sensor_raw pins s)
unfolding read_sensor_filtered push
filtered-either pins [] last ready h =
    filter-pair last (read_sensor_raw pins (sensor_with ready (last ∷ []))) [] (omega arith)
filtered-either pins (a ∷ []) last ready h =
    filter-pair last (read_sensor_raw pins (sensor_with ready (a ∷ last ∷ []))) (a ∷ [])
      (omega arith)
filtered-either pins (a ∷ b ∷ []) last ready h =
    filter-pair last (read_sensor_raw pins (sensor_with ready (a ∷ b ∷ last ∷ []))) (b ∷ [])
      (omega arith)
filtered-either pins (a ∷ b ∷ c ∷ cs) last ready h = let no : ⊥ = omega (arith, h) in elim no [ ]
