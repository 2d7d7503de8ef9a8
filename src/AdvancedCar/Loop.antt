-- ===== src/AdvancedCar/Loop.antt =====
-- The control thread of advanced_line_car.py and the commands of its user. The configuration is read
-- in each round, and the user may load another one between two rounds.
use adeept_awr.Common.{
  ℕ, Bool, true, false, Option, none, some, List, [], ◌∷◌, ◌++◌, ◌==◌, Answer, gives, raises,
  if◌then◌else◌, get_elem?, set_elem,
}
use adeept_awr.Hardware.{Levels, get_line_position, stop_gear}
use adeept_awr.AdvancedCar.Config.{Config, ConfigError, validate_config}
use adeept_awr.AdvancedCar.Car.{Car, process_line_sensor}

pub data Thread : Type 0 where
  at_test in_body ended : Thread

pub record Program : Type 0 where
  pub config : Config
  pub car : Car
  pub threads : List Thread

pub data Event : Type 0 where
  start cleanup : Event
  reload_config : Config → Event
  thread : ℕ → Answer Levels → Event

-- `__init__` up to the hardware: the program ends where the configuration has an error.
abbrev pub accepts : List ConfigError → Bool
accepts [] = true
accepts (e ∷ es) = false

unfoldable pub may_start : Config → Bool
unfolding validate_config
may_start c = accepts (validate_config c)

abbrev pub halt : Car → Car
halt s = record s { motor_controller = stop_gear s.motor_controller }

-- Only the cleanup calls it, and stops the motors once more.
unfoldable pub stop : Car → Car
stop s = halt (record s { running = false })

-- The delay of a round, which raises for a frequency of zero.
abbrev pub delayed : Config → Car → Car × Thread
delayed c s = if c.control_frequency == 0 then (halt s, ended) else (s, at_test)

abbrev pub sensed : Config → Answer Levels → Car → Car × Thread
sensed c (gives l) s = delayed c (process_line_sensor c (get_line_position l) s)
sensed c raises s = (halt s, ended)

-- `control_loop`, one step of it. A simulation only prints.
unfoldable pub control_loop_step : Config → Answer Levels → Thread → Car → Car × Thread
control_loop_step c a at_test s = if s.running then (s, in_body) else (halt s, ended)
control_loop_step c a in_body s = if s.line_sensor then sensed c a s else delayed c s
control_loop_step c a ended s = (s, ended)

abbrev pub thread_at : ℕ → Answer Levels → Option Thread → Program → Program
thread_at k a none p = p
thread_at k a (some t) p =
    let (s, t') = control_loop_step p.config a t p.car in
    record p { car = s; threads = set_elem p.threads k t' }

unfoldable pub happen : Event → Program → Program
unfolding stop
happen start p =
    if p.car.running
    then p
    else record p { car = record p.car { running = true }; threads = p.threads ++ (at_test ∷ []) }
happen cleanup p = record p { car = halt (stop p.car) }
happen (reload_config c) p = record p { config = c }
happen (thread k a) p = thread_at k a (get_elem? p.threads k) p

unfoldable pub history : List Event → Program → Program
history [] p = p
history (e ∷ es) p = history es (happen e p)
