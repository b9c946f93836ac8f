-- ===== src/Switch/Events.antt =====
-- What drives switch.c: interrupts, tasklets that the kernel runs when they are pending, and calls of
-- processes, one after the other in the order in which they happen.
use mathlib.Core.Option
use embedded_system_software.Base.{
  ℕ, Bool, false, Option, some, List, [], ◌∷◌, if◌then◌else◌, ◌>>=◌, ℤ,
}
use embedded_system_software.Switch.{
  Driver, Edge, Request, switch_irq_isr, ultrasonic_isr, switch_tasklet_func,
  ultrasonic_tasklet_func, switch_ioctl,
}

pub data Event : Type 0 where
  button : ℕ → ℕ → Event
  echo : Edge → Event
  run_switch run_ultrasonic : Bool → Event
  call : Request → Event

module _ (elapsed_us : ℕ → ℕ → ℤ) where
  -- A tasklet that is not pending is not run. `none` is a fault.
  unfoldable pub step : Event → Driver → Option Driver
  step (button b jiffies) s = some (switch_irq_isr b jiffies s)
  step (echo e) s = some (ultrasonic_isr elapsed_us e s)
  step (run_switch ok) s =
      if s.switch_pending
      then switch_tasklet_func ok (record s { switch_pending = false })
      else some s
  step (run_ultrasonic ok) s =
      if s.ultrasonic_pending
      then ultrasonic_tasklet_func ok (record s { ultrasonic_pending = false })
      else some s
  step (call r) s = Option.map (λ t. t.1) (switch_ioctl s r)

  unfoldable pub run : List Event → Driver → Option Driver
  run [] s = some s
  run (e ∷ es) s = do t ← step e s; run es t
