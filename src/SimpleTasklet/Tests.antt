-- ===== src/SimpleTasklet/Tests.antt =====
-- Presses of the button and runs of the tasklet.
use embedded_system_software.Base.{length, ◌≡◌, refl, true, List, [], ◌∷◌}
use embedded_system_software.SimpleTasklet.{
  simple_tasklet_func, Event, press, softirq, simple_tasklet_init, simple_tasklet_exit, run, step,
  simple_tasklet_isr, tasklet_kill,
}

abbrev history : List Event
history = press ∷ press ∷ softirq ∷ softirq ∷ press ∷ []

-- Two presses that wait together get one line.
history-printed :
    length (simple_tasklet_exit [] (run history (simple_tasklet_init true).1)).printed ≡ 2
unfolding simple_tasklet_exit run step simple_tasklet_isr simple_tasklet_func tasklet_kill
history-printed = refl

-- A press between the end of the tasklet and that of the interrupt leaves the tasklet scheduled when the module is gone.
late_press : (simple_tasklet_exit (press ∷ []) (simple_tasklet_init true).1).scheduled ≡ true
unfolding simple_tasklet_exit run step simple_tasklet_isr tasklet_kill
late_press = refl
