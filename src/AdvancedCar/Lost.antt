-- ===== src/AdvancedCar/Lost.antt =====
-- A line that is lost for some rounds.
use adeept_awr.Common.{
  ℕ, zero, suc, ◌+◌, ◌*◌, ◌/◌, ◌≤◌, ◌≡◌, none, arith, ltb, ◌==◌, if◌then◌else◌, ◌∙◌,
}
use adeept_awr.AdvancedCar.Config.{Config}
use adeept_awr.AdvancedCar.Car.{
  Car, is_overdue, timeout_rounds, handle_line_lost, process_line_sensor,
}

abbrev pub lose_line : Config → ℕ → Car → Car
lose_line c zero s = s
lose_line c (suc n) s = process_line_sensor c none (lose_line c n s)

pub record LostFor (c : Config) (n : ℕ) (s t : Car) : Type 0 where
  pub counter : t.line_lost_count ≡ n
  pub events : t.line_lost_events ≡ s.line_lost_events + (if is_overdue c n then 1 else 0)

-- The first count that is overdue is the one after the rounds of the timeout.
once :
    (x n : ℕ)
    → (if ltb x (n * 1000) then 1 else 0) + (if suc n == x / 1000 + 1 then 1 else 0)
      ≡ (if ltb x (suc n * 1000) then 1 else 0)
once x n = ground arith

round-lost :
    (c : Config) (n : ℕ) (t : Car)
    → 1 ≤ c.control_frequency
    → t.line_lost_count ≡ n
    → let t' = process_line_sensor c none t in
      (t'.line_lost_count ≡ suc n)
      × (t'.line_lost_events
          ≡ t.line_lost_events
            + (if is_overdue c (suc n)
                then (if suc n == timeout_rounds c + 1 then 1 else 0)
                else 0))
unfolding process_line_sensor handle_line_lost
round-lost c n t f h = ground arith

-- One more round, in numbers: the product of the timeout and the frequency is `x`.
counted :
    (x n a b : ℕ)
    → a ≡ b + (if ltb x (n * 1000) then 1 else 0)
    → a + (if ltb x (suc n * 1000) then (if suc n == x / 1000 + 1 then 1 else 0) else 0)
      ≡ b + (if ltb x (suc n * 1000) then 1 else 0)
counted x n a b h = ground (arith, once x n)

lost-LostFor :
    (c : Config) (n : ℕ) (s t : Car)
    → 1 ≤ c.control_frequency
    → LostFor c n s t
    → LostFor c (suc n) s (process_line_sensor c none t)
lost-LostFor c n s t f h =
    let (k, e) = round-lost c n t f h.counter in
    let x = c.line_lost_timeout * c.control_frequency in
    record { counter = k; events = e ∙ counted x n _ _ h.events }

-- With a frequency that is not zero, over any number of rounds in a row without the line, counted from one that saw
-- it: the loss counts as one event from the first round on at which it has lasted longer than the
-- timeout, and as no more than one, however the timeout and the frequency fit together.
pub lose_line_once :
    (c : Config) (n : ℕ) (s : Car)
    → 1 ≤ c.control_frequency
    → s.line_lost_count ≡ 0
    → LostFor c n s (lose_line c n s)
lose_line_once c zero s f h = record { counter = h; events = ground arith }
lose_line_once c (suc n) s f h = lost-LostFor c n s (lose_line c n s) f (lose_line_once c n s f h)
