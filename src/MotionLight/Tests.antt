-- ===== src/MotionLight/Tests.antt =====
-- Runs of the light of ch8_mod.c.
use embedded_system_software.Base.{◌≡◌, refl, true, some, [], ◌∷◌}
use embedded_system_software.MotionLight.{
  ch8_mod_isr, ch8_mod_init, detect, step, run, ch8_mod_exit,
}

-- A detection while the module is removed, after the timer is deleted and before the interrupt is freed, leaves the timer
-- pending.
exit-pending : (ch8_mod_exit (detect ∷ []) (ch8_mod_init 3 100 true)).expires ≡ some 103
unfolding run step ch8_mod_isr
exit-pending = refl
