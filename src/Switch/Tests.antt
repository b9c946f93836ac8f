-- ===== src/Switch/Tests.antt =====
-- Instances and runs of the switch driver.
use embedded_system_software.Base.{
  ℕ, ◌-◌, ◌/◌, ◌≡◌, refl, true, some, List, [], ◌∷◌, arith, set, replicate, All, ℤ, pos, minus_one,
}
use embedded_system_software.Switch.{
  switch_irq_isr, Driver, queue_get, switch_tasklet_func, switch_recv,
}
use embedded_system_software.Switch.Events.{Event, button, run_switch, call, step, run}
use embedded_system_software.Switch.Setup.{initial}
use embedded_system_software.Switch.Invariant.{Inv, initial-Inv}
use embedded_system_software.Switch.Safety.{run-Inv}
use embedded_system_software.Switch.Spacing.{IsSpaced}
use embedded_system_software.Switch.Debounce.{run-IsSpaced}
use embedded_system_software.Switch.Delivery.{button-switch_recv}
use embedded_system_software.Switch.Echo.{IsElapsed, run-trigger_stuck}

-- A clock in nanoseconds.
abbrev clock_us : ℕ → ℕ → ℤ
clock_us stop start = pos ((stop - start) / 1000)

clock_us-IsElapsed : IsElapsed clock_us
clock_us-IsElapsed = record { micros = λ stop start h. refl }

-- The coffer takes queue 1, the first button is pressed, and bounces.
abbrev bounce : List Event
bounce =
    call (queue_get 1)
    ∷ button 1 100
    ∷ run_switch true
    ∷ button 1 105
    ∷ run_switch true
    ∷ button 2 130
    ∷ run_switch true
    ∷ []

run-Inv_example : (t : Driver) × (run clock_us bounce initial ≡ some t) × Inv t
run-Inv_example =
    run-Inv clock_us bounce initial (omega arith, (tt, (refl, (tt, (refl, (tt, (refl, tt)))))))
      initial-Inv

run-IsSpaced_example :
    (t : Driver) × (run clock_us bounce initial ≡ some t) × All (IsSpaced t.pre) t.switch_queues
run-IsSpaced_example =
    run-IsSpaced clock_us bounce (omega arith, (tt, (refl, (tt, (refl, (tt, (refl, tt)))))))
      (tt, (omega arith, (tt, (omega arith, (tt, (omega arith, (tt, tt)))))))

-- A driver whose queue 1 is in use, with a press of the third button that waits for the tasklet.
abbrev pressed_at : ℕ → ℕ → Driver
pressed_at before jiffies = record initial {
  queue_use = set (replicate 10 0) 1 1;
  pre = before;
  switch_data_tmp = record { value = pos 3; timestamp = jiffies };
}

button-switch_recv_example :
    (t t' : Driver) × (run clock_us (button 2 200 ∷ run_switch true ∷ []) (pressed_at 100 100)
      ≡ some t)
    × (switch_recv t (pos 1) ≡ some (pos 2, t'))
    × (switch_recv t' (pos 1) ≡ some (minus_one, t'))
unfolding initial
button-switch_recv_example =
    button-switch_recv clock_us 2 200 1 1 (pressed_at 100 100) (omega arith) (omega arith) refl
      (omega arith) refl

-- The sensor has been asked for a reading.
abbrev asked : Driver
asked = record initial { echo_valid_flag = 1 }

-- A further press, with no echo in between.
abbrev lost : List Event
lost = button 2 300 ∷ run_switch true ∷ []

abbrev after_lost : Driver
after_lost = record asked { pre = 300; switch_data_tmp = record { value = pos 2; timestamp = 300 } }

run-trigger_stuck_example : after_lost.trigger ≡ asked.trigger
unfolding initial run step switch_tasklet_func switch_irq_isr
run-trigger_stuck_example =
    run-trigger_stuck clock_us lost asked after_lost (tt, (tt, tt)) refl refl
