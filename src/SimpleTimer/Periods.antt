-- ===== src/SimpleTimer/Periods.antt =====
-- When the timer prints.
use embedded_system_software.Base.{
  ℕ, zero, suc, ◌+◌, ◌*◌, ◌%◌, ◌^◌, ◌≤◌, ◌<◌, ◌≡◌, some, List, [], ◌∷◌, ◌++◌,
}
use embedded_system_software.SimpleTimer.{MyTimer}

-- The first lines: a line for each whole number of delays after the start, with the time in 32 bits.
unfoldable pub lines : ℕ → ℕ → ℕ → List (ℕ × ℕ)
lines start delay zero = []
lines start delay (suc k) =
    lines start delay k ++ (((start + suc k * delay) % 2 ^ 32, (100 + k) % 2 ^ 32) ∷ [])

-- After `n` jiffies and `k` lines.
record Inv (start delay k n : ℕ) (s : MyTimer) : Type 0 where
  same_delay : s.delay_jiffies ≡ delay
  time : s.jiffies ≡ (start + n) % 2 ^ 32
  due : s.expires ≡ some ((start + suc k * delay) % 2 ^ 32)
  late : k * delay ≤ n
  early : n < suc k * delay
  number : s.my_data ≡ (100 + k) % 2 ^ 32
  so_far : s.printed ≡ lines start delay k
