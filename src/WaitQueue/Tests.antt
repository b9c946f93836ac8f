-- ===== src/WaitQueue/Tests.antt =====
-- Runs of the counter of simple_block_1.c.
use embedded_system_software.Base.{◌+◌, ◌-◌, ◌^◌, ◌≡◌, refl, some, List, [], ◌∷◌, arith}
use embedded_system_software.WaitQueue.{
  wq, wq_interruptible, wq_interruptible_timeout, other, Event, consume, wake, signal, timeout,
  other, decrement, produce, step, run, init,
}
use embedded_system_software.WaitQueue.Consumers.{taken, calm, run-calm}

abbrev busy : List Event
busy =
    consume wq
    ∷ consume wq_interruptible
    ∷ consume wq_interruptible_timeout
    ∷ produce 3
    ∷ wake wq
    ∷ signal wq_interruptible
    ∷ wake wq_interruptible_timeout
    ∷ decrement
    ∷ []

-- Two consumers wait, one number is added, and both find the counter positive before either takes from it.
abbrev race : List Event
race = consume wq ∷ consume wq ∷ produce 1 ∷ wake wq ∷ wake wq ∷ decrement ∷ decrement ∷ []

race-below_zero : (run race init).my_data ≡ 2 ^ 64 - 1
unfolding run step
race-below_zero = refl

-- A consumer that waits two seconds in vain takes from the counter at 0.
late-below_zero :
    (run (consume wq_interruptible_timeout ∷ timeout ∷ decrement ∷ []) init).my_data ≡ 2 ^ 64 - 1
unfolding run step
late-below_zero = refl

-- A signal ends the wait with -ERESTARTSYS and takes nothing.
signal-returns :
    (step (signal wq_interruptible) (run (consume wq_interruptible ∷ []) init)).0
    ≡ some (2 ^ 64 - 512)
unfolding run step
signal-returns = refl

run-calm_example : (run (calm busy) init).my_data + taken (calm busy) init ≡ 0 + 3
run-calm_example = run-calm busy init refl (omega arith)

-- A call with a command that the module does not know takes from the counter.
other-below_zero : (run (other ∷ decrement ∷ []) init).my_data ≡ 2 ^ 64 - 1
unfolding run step
other-below_zero = refl
