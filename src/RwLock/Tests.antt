-- ===== src/RwLock/Tests.antt =====
-- A reader and a writer that takes the lock after it.
use embedded_system_software.Base.{none, ℕ, ◌≡◌, refl, ◌↔◌, Option, some, IsSome}
use embedded_system_software.RwLock.{
  System, outside, printed_twice, Reach, start, later, go, read_lock, first_print, second_print,
  simple_rwlock_exit,
}
use embedded_system_software.RwLock.Safety.{Reach-reads}

-- Thread 0 reads and prints twice.
abbrev read_once : (s : System) × Reach s
read_once = (
  _,
  later (later (later start (go 0 refl (read_lock (λ j. refl)))) (go 0 refl first_print))
      (go 0 refl (second_print 0 (some 0))),
)

Reach-reads_example :
    ((i p : ℕ) (v w : Option ℕ)
      → read_once.0.pc i ≡ printed_twice p v w
      → (n : ℕ) × (v ≡ some n) × (w ≡ some n))
    × (((i : ℕ) → read_once.0.pc i ≡ outside)
        → (p : ℕ)
        → (IsSome (read_once.0.shared.cell p) ↔ (p ≡ read_once.0.shared.my_data))
          × ((simple_rwlock_exit read_once.0.shared).cell p ≡ none))
Reach-reads_example = Reach-reads read_once.1
