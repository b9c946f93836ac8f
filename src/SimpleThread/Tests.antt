-- ===== src/SimpleThread/Tests.antt =====
-- A thread that is told to stop in its third pass.
use embedded_system_software.Base.{◌≡◌, refl, true, false, some, [], ◌∷◌}
use embedded_system_software.SimpleThread.{simple_kthread_func}

two_passes : simple_kthread_func ((false, 7) ∷ (false, 9) ∷ (true, 11) ∷ []) ≡ some (7 ∷ 9 ∷ [])
unfolding simple_kthread_func
two_passes = refl
