-- ===== src/Rcu.antt =====
-- synchronization/exercise2/simple_rcu.c: a number behind a pointer under RCU. Threads run `simple_ioctl` in any order, one
-- access to the shared variables at a time; memory that was freed reads as `none`.
-- `kmalloc` has memory, and the store through its result belongs to its step.
pub mod Safety
mod Tests
use embedded_system_software.Base.{
  update, ℕ, zero, suc, ◌+◌, ◌-◌, ◌*◌, ◌/◌, ◌%◌, ◌^◌, ◌≤◌, ◌<◌, bit_and, bit_or, ◌≡◌, refl, sym, ap,
  subst, ◌∙◌, ◌≢◌, ◌↔◌, ◌⊎◌, inl, inr, Bool, true, false, not, ◌&&◌, ◌||◌, Option, none, some, List,
  [], ◌∷◌, ◌++◌, map, arith, ltb, leb, ◌==◌, if◌then◌else◌, ltb→lt, lt→ltb, le→ltb_false, ==_iff,
  ==_refl, Bool-cases, Option-cases, ◌>>=◌, length, get_elem?, get_or, set, total-set, take, drop,
  replicate, overlay, All, total, total-put_at, length-append, length-set, get_elem?-set_self,
  get_elem?-set_ne, get_elem?-lt, get_elem?-none, set-set, lt_of_get_elem?, length-overlay,
  length-take, length-drop, length-replicate, take-overlay, All-append, All-get_elem?, All-set, ℤ,
  pos, negsuc, ltb_ℤ, eqb_ℤ, is_negative, ok_code, minus_one, minus_two, as_int, as_int-small, at,
  put_at, length-put_at, at-put_at_self, at-put_at_ne, put_at-put_at, All-put_at, All-at, has_flag,
  strlen,
}

-- `my_data` as an address; what `kmalloc` has handed out and `kfree` has not taken back; the next address; and how many
-- grace periods have begun.
pub record Shared : Type 0 where
  pub my_data : ℕ
  pub cell : ℕ → Option ℕ
  pub next : ℕ
  pub epoch : ℕ

-- Where a thread is in `simple_ioctl`. A reader keeps the grace period in which `rcu_read_lock` was called, the pointer it
-- takes next, and what it printed: once, and again after the delay. A writer has the new pointer, then the old one, and then
-- waits in `synchronize_rcu` for the readers of earlier periods.
pub data Pc : Type 0 where
  outside : Pc
  reading : ℕ → Pc
  taken : ℕ → ℕ → Pc
  printed : ℕ → ℕ → Option ℕ → Pc
  printed_twice : ℕ → ℕ → Option ℕ → Option ℕ → Pc
  writing : ℕ → Pc
  made : ℕ → Pc
  swapped : ℕ → Pc
  synchronizing : ℕ → ℕ → Pc
  synchronized : ℕ → Pc
  freed : Pc

pub record System : Type 0 where
  pub shared : Shared
  pub pc : ℕ → Pc

-- A thread that holds the spin lock.
abbrev pub writes : Pc → Bool
writes outside = false
writes (reading e) = false
writes (taken e p) = false
writes (printed e p v) = false
writes (printed_twice e p v w) = false
writes (writing arg) = true
writes (made new) = true
writes (swapped old) = true
writes (synchronizing old e) = true
writes (synchronized old) = true
writes freed = true

-- The grace period in which a reader called `rcu_read_lock`, until `rcu_read_unlock`.
abbrev pub period : Pc → Option ℕ
period outside = none
period (reading e) = some e
period (taken e p) = some e
period (printed e p v) = some e
period (printed_twice e p v w) = some e
period (writing arg) = none
period (made new) = none
period (swapped old) = none
period (synchronizing old e) = none
period (synchronized old) = none
period freed = none

abbrev pub IsSince : ℕ → Pc → Type 0
IsSince e p = (e' : ℕ) → period p ≡ some e' → e ≤ e'

-- One thread goes on. A writer enters when no thread has the spin lock, and leaves `synchronize_rcu` when every reader has
-- come in since the period began: that is what is documented of the two.
pub data Move (s : System) (i : ℕ) : Pc → Shared → Pc → Type 0 where
  rcu_read_lock : Move s i outside s.shared (reading s.shared.epoch)
  rcu_dereference : (e : ℕ) → Move s i (reading e) s.shared (taken e s.shared.my_data)
  first_print : (e p : ℕ) → Move s i (taken e p) s.shared (printed e p (s.shared.cell p))
  second_print :
      (e p : ℕ) (v : Option ℕ)
      → Move s i (printed e p v) s.shared (printed_twice e p v (s.shared.cell p))
  rcu_read_unlock : (e p : ℕ) (v w : Option ℕ) → Move s i (printed_twice e p v w) s.shared outside
  spin_lock :
      (arg : ℕ) → ((j : ℕ) → writes (s.pc j) ≡ false) → Move s i outside s.shared (writing arg)
  kmalloc :
      (arg : ℕ)
      → Move s i
          (writing arg)
          (record s.shared {
            cell = update s.shared.cell s.shared.next (some arg);
            next = s.shared.next + 1;
          })
          (made s.shared.next)
  assign_pointer :
      (new : ℕ) → Move s i (made new) (record s.shared { my_data = new }) (swapped s.shared.my_data)
  synchronize :
      (old : ℕ)
      → Move s i
          (swapped old)
          (record s.shared { epoch = s.shared.epoch + 1 })
          (synchronizing old (s.shared.epoch + 1))
  grace_period :
      (old e : ℕ)
      → ((j : ℕ) → IsSince e (s.pc j))
      → Move s i (synchronizing old e) s.shared (synchronized old)
  kfree :
      (old : ℕ)
      → Move s i (synchronized old) (record s.shared { cell = update s.shared.cell old none }) freed
  spin_unlock : Move s i freed s.shared outside

pub data Step (s : System) : System → Type 0 where
  go :
      (i : ℕ) {p q : Pc} {m : Shared}
      → s.pc i ≡ p
      → Move s i p m q
      → Step s (record { shared = m; pc = update s.pc i q })

-- `simple_rcu_init`: the first address holds 0.
abbrev pub init : System
init = record {
  shared = record { my_data = 0; cell = update (λ p. none) 0 (some 0); next = 1; epoch = 0 };
  pc = λ i. outside;
}

-- `simple_rcu_exit`: the pointer, which is then NULL, and the memory.
abbrev pub simple_rcu_exit : Shared → Option ℕ × (ℕ → Option ℕ)
simple_rcu_exit m = (none, update m.cell m.my_data none)

pub data Reach : System → Type 0 where
  start : Reach init
  later : {s t : System} → Reach s → Step s t → Reach t
