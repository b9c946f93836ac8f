-- ===== src/Rcu/Tests.antt =====
-- A reader keeps its pointer while a writer replaces it.
use embedded_system_software.Base.{ℕ, ◌≡◌, refl, false, Option, some, arith, update}
use embedded_system_software.Rcu.{
  System, outside, reading, taken, printed, writes, Reach, start, later, go, rcu_read_lock,
  rcu_dereference, first_print, second_print, spin_lock, kmalloc, assign_pointer, synchronize,
}
use embedded_system_software.Rcu.Safety.{Reach-prints}

pub record Run : Type 0 where
  pub last : System
  pub reach : Reach last

no_writer :
    (j : ℕ)
    → writes (
        update
          (update (update (λ i. outside) 0 (reading 0)) 0 (taken 0 0))
          0
          (printed 0 0 (some 0))
          j)
      ≡ false
no_writer j = ground arith

-- Thread 0 reads and prints; thread 1 writes 7 and waits for it; thread 0 prints again.
abbrev overtaken : Run
overtaken = record {
  last = _;
  reach =
      later
        (later
          (later
            (later
              (later
                (later
                  (later (later start (go 0 refl rcu_read_lock)) (go 0 refl (rcu_dereference 0)))
                  (go 0 refl (first_print 0 0)))
                (go 1 refl (spin_lock 7 no_writer)))
              (go 1 refl (kmalloc 7)))
            (go 1 refl (assign_pointer 1)))
          (go 1 refl (synchronize 0)))
        (go 0 refl (second_print 0 0 (some 0)));
}

Reach-prints_example :
    (n : ℕ) × (◌≡◌ {A = Option ℕ} (some 0) (some n)) × (◌≡◌ {A = Option ℕ} (some 0) (some n))
Reach-prints_example = Reach-prints overtaken.reach 0 0 0 (some 0) (some 0) refl
