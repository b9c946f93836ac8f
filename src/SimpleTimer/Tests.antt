-- ===== src/SimpleTimer/Tests.antt =====
-- A timer with a delay of two jiffies.
use embedded_system_software.Base.{◌-◌, ◌^◌, ◌≡◌, refl, none, [], ◌∷◌}
use embedded_system_software.SimpleTimer.{
  run, simple_timer_init, tick, my_timer_func, simple_timer_exit,
}

five_jiffies : (run 5 (simple_timer_init 2 1000)).printed ≡ (1002, 100) ∷ (1004, 101) ∷ []
unfolding run tick my_timer_func
five_jiffies = refl

exit-disarms : (simple_timer_exit (run 5 (simple_timer_init 2 1000))).expires ≡ none
exit-disarms = refl

-- The jiffies start anew between two lines.
wraps : (run 5 (simple_timer_init 2 (2 ^ 32 - 3))).printed ≡ (2 ^ 32 - 1, 100) ∷ (1, 101) ∷ []
unfolding run tick my_timer_func
wraps = refl
