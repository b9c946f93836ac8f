-- ===== src/Switch/Spacing.antt =====
-- Queues of presses that are more than the debounce span apart.
use embedded_system_software.Base.{ℕ, ◌+◌, ◌≤◌, ◌<◌, List, [], ◌∷◌, ◌++◌, arith, All}
use embedded_system_software.Switch.{Sample, debounce, broadcast}

-- Each press is more than 20 jiffies after the one before it, and the last is not after `pre`.
abbrev pub IsSpaced : ℕ → List Sample → Type 0
IsSpaced pre [] = Unit {0}
IsSpaced pre (d ∷ []) = d.timestamp ≤ pre
IsSpaced pre (d ∷ e ∷ q) = (d.timestamp + debounce < e.timestamp) × IsSpaced pre (e ∷ q)

IsSpaced-append :
    (pre : ℕ) (d : Sample) (q : List Sample)
    → pre + debounce < d.timestamp
    → IsSpaced pre q
    → IsSpaced d.timestamp (q ++ (d ∷ []))
IsSpaced-append pre d [] h s = omega arith
IsSpaced-append pre d (e ∷ []) h s = (omega arith, omega arith)
IsSpaced-append pre d (e ∷ f ∷ q) h s = (s.0, IsSpaced-append pre d (f ∷ q) h s.1)

IsSpaced-mono : (pre now : ℕ) (q : List Sample) → pre ≤ now → IsSpaced pre q → IsSpaced now q
IsSpaced-mono pre now [] h s = tt
IsSpaced-mono pre now (d ∷ []) h s = omega arith
IsSpaced-mono pre now (d ∷ e ∷ q) h s = (s.0, IsSpaced-mono pre now (e ∷ q) h s.1)

pub IsSpaced-tail : (pre : ℕ) (d : Sample) (q : List Sample) → IsSpaced pre (d ∷ q) → IsSpaced pre q
IsSpaced-tail pre d [] s = tt
IsSpaced-tail pre d (e ∷ q) s = s.1

pub broadcast-IsSpaced :
    (pre : ℕ) (d : Sample) (us : List ℕ) (qs : List (List Sample))
    → pre + debounce < d.timestamp
    → All (IsSpaced pre) qs
    → All (IsSpaced d.timestamp) (broadcast d us qs)
unfolding broadcast
broadcast-IsSpaced pre d [] [] h s = tt
broadcast-IsSpaced pre d [] (q ∷ qs) h s =
    (IsSpaced-mono pre d.timestamp q (omega arith) s.0, broadcast-IsSpaced pre d [] qs h s.1)
broadcast-IsSpaced pre d (u ∷ us) [] h s = tt
broadcast-IsSpaced pre d (u ∷ us) (q ∷ qs) h s = (
  ground (arith, IsSpaced-append pre d q h s.0, IsSpaced-mono pre d.timestamp q (omega arith) s.0),
  broadcast-IsSpaced pre d us qs h s.1,
)
