-- ===== src/SwitchLight/Tests.antt =====
-- Runs of the light of ch7_mod.c.
use embedded_system_software.Base.{◌≡◌, refl, Bool, true, false, some, List, [], ◌∷◌}
use embedded_system_software.SwitchLight.{my_timer_func, ch7_mod_init, ch7_mod_exit, run, tick}

-- The switch is pressed in the second and in the third jiffy.
abbrev presses : List Bool
presses = false ∷ true ∷ true ∷ false ∷ false ∷ []

-- The handler in the middle of a run when the module is removed arms the timer again after it was deleted.
exit-pending : (my_timer_func true (ch7_mod_exit (ch7_mod_init 3 100))).expires ≡ some 103
unfolding my_timer_func
exit-pending = refl

presses-led : (run presses (ch7_mod_init 3 100)).led ≡ true
unfolding run tick my_timer_func
presses-led = refl
