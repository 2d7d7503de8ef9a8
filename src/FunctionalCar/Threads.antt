-- ===== src/FunctionalCar/Threads.antt =====
-- A control thread after the cleanup that ends a session.
use adeept_awr.Common.{
  ℕ, ◌≡◌, refl, false, Option, none, some, [], ◌∷◌, Float, arith, get_elem?, set_elem,
  get_elem?-set_elem, ◌∙◌,
}
use adeept_awr.Hardware.{Gear, motor_stop, stop_gear}
use adeept_awr.FunctionalCar.State.{Car, Input}
use adeept_awr.FunctionalCar.Turns.{stop_motors}
use adeept_awr.FunctionalCar.Cycle.{execute_integrated_driving_control}
use adeept_awr.FunctionalCar.Phases.{cycle-running}
use adeept_awr.FunctionalCar.Session.{
  at_test, in_body, ended, Program, clean_up, user, thread, update_statistics,
  stop_autonomous_driving, cleanup_system, take, control_loop_step, happen, history,
}

-- Both motors are stopped, if there are any.
abbrev pub IsStill : Option Gear → Type 0
IsStill o = o ≡ stop_gear o

stop_gear-IsStill : (o : Option Gear) → IsStill (stop_gear o)
unfolding motor_stop
stop_gear-IsStill none = refl
stop_gear-IsStill (some g) = refl

module _ {ℓ} {W : Type ℓ} ⦃f : Float W⦄ where
  -- The `k`-th thread has ended with the car at rest.
  pub record AtRest (k : ℕ) (p : Program W) : Type ℓ where
    pub not_running : p.car.is_running ≡ false
    pub still : IsStill p.car.motor_controller
    pub thread_ended : get_elem? p.threads k ≡ some ended

  cleanup-running : (now : W) (s : Car W) → (cleanup_system now s).is_running ≡ false
  unfolding cleanup_system stop_autonomous_driving update_statistics stop_motors
  cleanup-running now s = ground arith

  leave-AtRest :
      (k : ℕ) (j : Input W) (p : Program W)
      → get_elem? p.threads k ≡ some at_test
      → p.car.is_running ≡ false
      → AtRest k (happen (thread k j) p)
  unfolding happen control_loop_step stop_motors
  leave-AtRest k j p h n =
      let out = get_elem?-set_elem p.threads k at_test ended h in
      rw (h, n)
        (record {
          not_running = refl;
          still = stop_gear-IsStill p.car.motor_controller;
          thread_ended = out;
        })

  -- Where a session ends while a control thread is in the body of its loop: the thread may set the
  -- motors once more, but it leaves the loop at its next test, and stops the motors then.
  pub cleanup-AtRest :
      (now : W) (k : ℕ) (i j : Input W) (p : Program W)
      → get_elem? p.threads k ≡ some in_body
      → AtRest k (history (user now clean_up ∷ thread k i ∷ thread k j ∷ []) p)
  unfolding history happen take control_loop_step
  cleanup-AtRest now k i j p h =
      let s = cleanup_system now p.car in
      let q : Program W = record {
        car = execute_integrated_driving_control i s;
        threads = set_elem p.threads k at_test;
      } in
      rw h (
        leave-AtRest k j q (get_elem?-set_elem p.threads k in_body at_test h)
          (cycle-running i s ∙ cleanup-running now p.car))
