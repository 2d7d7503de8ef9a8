-- ===== src/FunctionalCar/Progress.antt =====
-- An avoidance comes to an end. Times are in thousandths here, and a round takes at least the 0.05
-- seconds that the loop sleeps.
use adeept_awr.Common.{
  ℕ, zero, suc, ◌+◌, ◌-◌, ◌*◌, ◌≤◌, ◌≡◌, refl, sym, Bool, true, false, fixed_float, arith, ◌∙◌, leb,
  ap, if◌then◌else◌, Bool-cases, inl, inr,
}
use adeept_awr.FunctionalCar.State.{Car, Input}
use adeept_awr.FunctionalCar.Phases.{
  Phase, following, turning_left, going_ahead, turning_right, tick, is_active, Represents, rounds,
  distance_seen, ticks, rounds-Represents, later, ticks-add,
}

abbrev pub Steady : (ℕ → Input ℕ) → Type 0
Steady is = (n : ℕ) → (is n).now + 50 ≤ (is (suc n)).now

later-Steady : (m : ℕ) (is : ℕ → Input ℕ) → Steady is → Steady (later m is)
later-Steady zero is h = h
later-Steady (suc m) is h = later-Steady m (λ k. is (suc k)) (λ n. h (suc n))

abbrev duration : Phase → ℕ
duration following = 0
duration turning_left = 800
duration going_ahead = 1200
duration turning_right = 800

abbrev next : Phase → Phase
next following = following
next turning_left = going_ahead
next going_ahead = turning_right
next turning_right = following

abbrev timer : Phase → ℕ → ℕ → ℕ
timer turning_right now t = t
timer _ now t = now

tick-active :
    (p : Phase) (d now t : ℕ)
    → is_active p ≡ true
    → tick d now (p, t) ≡ (if leb (duration p) (now - t) then (next p, timer p now t) else (p, t))
tick-active following d now t h = cc
tick-active turning_left d now t h = refl
tick-active going_ahead d now t h = refl
tick-active turning_right d now t h = refl

timer-le : (p : Phase) (now t n : ℕ) → t ≤ now → now + 50 ≤ n → timer p now t ≤ n
timer-le following now t n h k = omega arith
timer-le turning_left now t n h k = omega arith
timer-le going_ahead now t n h k = omega arith
timer-le turning_right now t n h k = omega arith

-- The phase has gone over to the next one after at most `n` rounds more than one.
record Over (p : Phase) (u : Bool) (is : ℕ → Input ℕ) (t n : ℕ) : Type 0 where
  rounds_more : ℕ
  start : ℕ
  bounded : rounds_more ≤ n
  reached : ticks u (suc rounds_more) is (p, t) ≡ (next p, start)
  before : start ≤ (later (suc rounds_more) is 0).now

-- One round of a phase that is over, and one of a phase that is not.
at_once-Over :
    (p : Phase) (u : Bool) (is : ℕ → Input ℕ) (t n : ℕ)
    → is_active p ≡ true
    → Steady is
    → t ≤ (is 0).now
    → leb (duration p) ((is 0).now - t) ≡ true
    → Over p u is t n
at_once-Over p u is t n a h k over =
    let now = (is 0).now in
    let step = tick-active p (distance_seen u (is 0)) now t a in
    record {
      rounds_more = 0;
      start = timer p now t;
      bounded = omega arith;
      reached = step ∙ rw over;
      before = timer-le p now t _ k (h 0);
    }

hold-Over :
    (p : Phase) (u : Bool) (is : ℕ → Input ℕ) (t n : ℕ)
    → is_active p ≡ true
    → leb (duration p) ((is 0).now - t) ≡ false
    → Over p u (λ k. is (suc k)) t n
    → Over p u is t (suc n)
hold-Over p u is t n a over o =
    let step = tick-active p (distance_seen u (is 0)) (is 0).now t a in
    record {
      rounds_more = suc o.rounds_more;
      start = o.start;
      bounded = omega (arith, o.bounded);
      reached =
          ap (λ (q : Phase × ℕ). ticks u (suc o.rounds_more) (λ k. is (suc k)) q) (step ∙ rw over)
          ∙ o.reached;
      before = o.before;
    }

phase-Over :
    (p : Phase) (n : ℕ) (u : Bool) (is : ℕ → Input ℕ) (t : ℕ)
    → is_active p ≡ true
    → Steady is
    → t ≤ (is 0).now
    → duration p ≤ ((is 0).now - t) + 50 * n
    → Over p u is t n
phase-Over p zero u is t a h k d = at_once-Over p u is t 0 a h k (ground arith)
phase-Over p (suc n) u is t a h k d = elim (Bool-cases (leb (duration p) ((is 0).now - t))) [
  | inl over ↦ at_once-Over p u is t (suc n) a h k over
  | inr over ↦
      let first = h 0 in
      hold-Over p u is t n a over
        (phase-Over p n u (λ k. is (suc k)) t a (λ m. h (suc m)) (omega arith) (omega arith))
]

-- The line is followed again after at most `n` rounds.
record Ended (u : Bool) (is : ℕ → Input ℕ) (a : Phase × ℕ) (n : ℕ) : Type 0 where
  count : ℕ
  at_most : count ≤ n
  done : (ticks u count is a).0 ≡ following

then-Ended :
    (p : Phase) (u : Bool) (is : ℕ → Input ℕ) (t n m : ℕ)
    → Over p u is t n
    → ((j s : ℕ) → s ≤ (later j is 0).now → Ended u (later j is) (next p, s) m)
    → Ended u is (p, t) (suc n + m)
then-Ended p u is t n m o rest =
    let j = suc o.rounds_more in
    let e = rest j o.start o.before in
    record {
      count = j + e.count;
      at_most = omega (arith, o.bounded, e.at_most);
      done =
          ap (λ (q : Phase × ℕ). q.0) (sym (ticks-add u j e.count is (p, t)))
          ∙ ap (λ (q : Phase × ℕ). (ticks u e.count (later j is) q).0) o.reached
          ∙ e.done;
    }

following-Ended : (u : Bool) (is : ℕ → Input ℕ) (t : ℕ) → Ended u is (following, t) 0
following-Ended u is t = record { count = 0; at_most = omega arith; done = refl }

right-Ended :
    (u : Bool) (is : ℕ → Input ℕ) (t : ℕ)
    → Steady is
    → t ≤ (is 0).now
    → Ended u is (turning_right, t) 17
right-Ended u is t h k =
    then-Ended turning_right u is t 16 0 (phase-Over turning_right 16 u is t refl h k (omega arith))
      (λ j s q. following-Ended u (later j is) s)

ahead-Ended :
    (u : Bool) (is : ℕ → Input ℕ) (t : ℕ)
    → Steady is
    → t ≤ (is 0).now
    → Ended u is (going_ahead, t) 42
ahead-Ended u is t h k =
    then-Ended going_ahead u is t 24 17 (phase-Over going_ahead 24 u is t refl h k (omega arith))
      (λ j s q. right-Ended u (later j is) s (later-Steady j is h) q)

left-Ended :
    (u : Bool) (is : ℕ → Input ℕ) (t : ℕ)
    → Steady is
    → t ≤ (is 0).now
    → Ended u is (turning_left, t) 59
left-Ended u is t h k =
    then-Ended turning_left u is t 16 42 (phase-Over turning_left 16 u is t refl h k (omega arith))
      (λ j s q. ahead-Ended u (later j is) s (later-Steady j is h) q)

-- An avoidance that has begun is over after at most 59 rounds of the control loop, whatever the
-- sensors show in them, where the clock is not behind the start of its first stage and a round takes
-- at least 0.05 seconds: some number of rounds up to 59 leaves the car in no avoidance.
pub avoidance_ends :
    (u : Bool) (is : ℕ → Input ℕ) (s : Car ℕ) (t : ℕ)
    → Represents u (turning_left, t) s
    → Steady is
    → t ≤ (is 0).now
    → (n : ℕ) × ((n ≤ 59) × ((rounds n is s).obstacle_avoidance_active ≡ false))
avoidance_ends u is s t r h k =
    let e = left-Ended u is t h k in
    let after = rounds-Represents e.count u is (turning_left, t) s r in
    (e.count, (e.at_most, after.active ∙ ap is_active e.done))
