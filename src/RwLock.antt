-- ===== src/RwLock.antt =====
-- synchronization/exercise1/simple_rwlock.c: a number behind a pointer under a reader-writer lock. Threads run
-- `simple_ioctl` in any order, one access to the shared variables at a time; memory that was freed reads as `none`.
-- `kmalloc` has memory, and the store through its result belongs to its step.
pub mod Safety
mod Tests
use embedded_system_software.Base.{
  ℕ, zero, suc, ◌+◌, ◌-◌, ◌*◌, ◌/◌, ◌%◌, ◌^◌, ◌≤◌, ◌<◌, bit_and, bit_or, ◌≡◌, refl, sym, ap, subst,
  ◌∙◌, ◌≢◌, ◌↔◌, ◌⊎◌, inl, inr, Bool, true, false, not, ◌&&◌, ◌||◌, Option, none, some, List, [],
  ◌∷◌, ◌++◌, map, arith, ltb, leb, ◌==◌, if◌then◌else◌, ltb→lt, lt→ltb, le→ltb_false, ==_iff,
  ==_refl, Bool-cases, Option-cases, ◌>>=◌, length, get_elem?, get_or, set, total-set, take, drop,
  replicate, overlay, All, total, total-put_at, length-append, length-set, get_elem?-set_self,
  get_elem?-set_ne, get_elem?-lt, get_elem?-none, set-set, lt_of_get_elem?, length-overlay,
  length-take, length-drop, length-replicate, take-overlay, All-append, All-get_elem?, All-set, ℤ,
  pos, negsuc, ltb_ℤ, eqb_ℤ, is_negative, ok_code, minus_one, minus_two, as_int, as_int-small, at,
  put_at, length-put_at, at-put_at_self, at-put_at_ne, put_at-put_at, All-put_at, All-at, has_flag,
  strlen, update, update_self, update_ne, IsSome, IsSome-value, update-none, some-ne-none,
}

-- `my_data` as an address; what `kmalloc` has handed out and `kfree` has not taken back; and the next address.
pub record Shared : Type 0 where
  pub my_data : ℕ
  pub cell : ℕ → Option ℕ
  pub next : ℕ

-- Where a thread is: a reader has the lock, the pointer and what it printed once and again after the delay; a writer has
-- the lock, then the new pointer, then the old one, which it frees.
pub data Pc : Type 0 where
  outside : Pc
  reading : Pc
  printed : ℕ → Option ℕ → Pc
  printed_twice : ℕ → Option ℕ → Option ℕ → Pc
  writing : ℕ → Pc
  made : ℕ → Pc
  swapped : ℕ → Pc
  freed : Pc

pub record System : Type 0 where
  pub shared : Shared
  pub pc : ℕ → Pc

-- A thread that holds the lock for writing.
abbrev pub writes : Pc → Bool
writes outside = false
writes reading = false
writes (printed p v) = false
writes (printed_twice p v w) = false
writes (writing arg) = true
writes (made new) = true
writes (swapped old) = true
writes freed = true

-- One thread goes on. A reader gets the lock when no thread writes, and a writer when no thread has it: that is what is
-- documented of `rwlock_t`.
pub data Move (s : System) : Pc → Shared → Pc → Type 0 where
  read_lock : ((j : ℕ) → writes (s.pc j) ≡ false) → Move s outside s.shared reading
  first_print : Move s reading s.shared (printed s.shared.my_data (s.shared.cell s.shared.my_data))
  second_print :
      (p : ℕ) (v : Option ℕ) → Move s (printed p v) s.shared (printed_twice p v (s.shared.cell p))
  read_unlock : (p : ℕ) (v w : Option ℕ) → Move s (printed_twice p v w) s.shared outside
  write_lock : (arg : ℕ) → ((j : ℕ) → s.pc j ≡ outside) → Move s outside s.shared (writing arg)
  kmalloc :
      (arg : ℕ)
      → Move s
          (writing arg)
          (record s.shared {
            cell = update s.shared.cell s.shared.next (some arg);
            next = s.shared.next + 1;
          })
          (made s.shared.next)
  assign :
      (new : ℕ) → Move s (made new) (record s.shared { my_data = new }) (swapped s.shared.my_data)
  kfree :
      (old : ℕ)
      → Move s (swapped old) (record s.shared { cell = update s.shared.cell old none }) freed
  write_unlock : Move s freed s.shared outside

pub data Step (s : System) : System → Type 0 where
  go :
      (i : ℕ) {p q : Pc} {m : Shared}
      → s.pc i ≡ p
      → Move s p m q
      → Step s (record { shared = m; pc = update s.pc i q })

-- `simple_rwlock_init`: the first address holds 0.
abbrev pub init : System
init = record {
  shared = record { my_data = 0; cell = update (λ p. none) 0 (some 0); next = 1 };
  pc = λ i. outside;
}

-- `simple_rwlock_exit`
abbrev pub simple_rwlock_exit : Shared → Shared
simple_rwlock_exit m = record m { cell = update m.cell m.my_data none }

pub data Reach : System → Type 0 where
  start : Reach init
  later : {s t : System} → Reach s → Step s t → Reach t
