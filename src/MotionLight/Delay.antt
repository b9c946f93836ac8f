-- ===== src/MotionLight/Delay.antt =====
-- The light of ch8_mod.c burns for two seconds after a detection.
use embedded_system_software.Base.{
  ℕ, ◌+◌, ◌-◌, ◌%◌, ◌^◌, ◌≤◌, ◌<◌, ◌≡◌, Bool, true, false, Option, none, some, List, [], ◌∷◌, ltb,
}
use mathlib.Core.Option
use embedded_system_software.MotionLight.{Light, Event, detect, tick}

-- The jiffies since the last detection, when there was one, after the events that follow.
abbrev pub since : Option ℕ → List Event → Option ℕ
since last [] = last
since last (detect ∷ es) = since (some 0) es
since last (tick ∷ es) = since (Option.map (λ n. n + 1) last) es

-- A detection is less than `delay` jiffies ago.
abbrev pub recent : ℕ → Option ℕ → Bool
recent delay none = false
recent delay (some n) = ltb n delay

-- The timer is pending until the delay after the last detection, and the light burns while it is.
abbrev Follows : ℕ → Option ℕ → Light → Type 0
Follows delay none s = (s.expires ≡ none) × (s.led ≡ false)
Follows delay (some n) s =
    (n < delay → (s.expires ≡ some ((s.jiffies + (delay - n)) % 2 ^ 32)) × (s.led ≡ true))
    × (delay ≤ n → (s.expires ≡ none) × (s.led ≡ false))
