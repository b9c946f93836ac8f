-- ===== src/UltraSensor/Tests.antt =====
-- Runs of the sensor of simple_ultra.c.
use embedded_system_software.Base.{refl, ℕ, ◌-◌, ◌/◌, ◌≡◌, true, List, [], ◌∷◌, ℤ, pos}
use embedded_system_software.Switch.{Edge}
use embedded_system_software.UltraSensor.{
  simple_ultra_init, simple_ultra_exit, simple_ultra_isr, run,
}

abbrev clock_us : ℕ → ℕ → ℤ
clock_us stop start = pos ((stop - start) / 1000)

abbrev edge : ℕ → ℕ → Edge
edge now value = record { now = now; echo = value; jiffies = 0 }

abbrev edges : List Edge
edges = edge 500 0 ∷ edge 1000 1 ∷ edge 1500 1 ∷ edge 581000 0 ∷ edge 600000 1 ∷ edge 700000 0 ∷ []

-- The pins stay requested when the module is gone.
exit-keeps : (simple_ultra_exit (simple_ultra_init true).1).gpios ≡ 17 ∷ 18 ∷ []
exit-keeps = refl

-- The echo of 580 microseconds, and not the one after it.
edges-printed : (run clock_us edges (simple_ultra_init true).1).printed ≡ pos 10 ∷ []
unfolding run simple_ultra_isr
edges-printed = refl
