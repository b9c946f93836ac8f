-- ===== src/ExclusiveQueue.antt =====
-- blocking_io/exercise2/simple_block_2.c: a counter with consumers that a producer wakes, all of them or, of those that wait
-- exclusively, one. A consumer that is woken tests the counter again, and takes the lock after that. `long` has 64 bits.
pub mod Wakeups
mod Tests
use Prim.Native.Nat.{min}
use embedded_system_software.Base.{
  ℕ, zero, suc, ◌+◌, ◌-◌, ◌*◌, ◌/◌, ◌%◌, ◌^◌, ◌≤◌, ◌<◌, bit_and, bit_or, ◌≡◌, refl, sym, ap, subst,
  ◌∙◌, ◌≢◌, ◌↔◌, ◌⊎◌, inl, inr, Bool, true, false, not, ◌&&◌, ◌||◌, Option, none, some, List, [],
  ◌∷◌, ◌++◌, map, arith, ltb, leb, ◌==◌, if◌then◌else◌, ltb→lt, lt→ltb, le→ltb_false, ==_iff,
  ==_refl, Bool-cases, Option-cases, ◌>>=◌, length, get_elem?, get_or, set, total-set, drop,
  replicate, overlay, All, total, total-put_at, length-append, length-set, get_elem?-set_self,
  get_elem?-set_ne, get_elem?-lt, get_elem?-none, set-set, lt_of_get_elem?, length-overlay,
  length-take, length-drop, length-replicate, take-overlay, take_all, append-nil, overlay-append,
  append_assoc, All-append, All-get_elem?, All-set, ℤ, pos, negsuc, ltb_ℤ, eqb_ℤ, is_negative,
  ok_code, minus_one, minus_two, as_int, as_int-small, at, put_at, length-put_at, at-put_at_self,
  at-put_at_ne, put_at-put_at, All-put_at, All-at, has_flag, strlen, update, update_self, update_ne,
  IsSome, IsSome-value, update-none, some-ne-none,
}

-- `my_data` as a bit pattern; the consumers asleep and those woken that have not yet tested the counter, of WQ and of WQ_EX;
-- how many are past the wait and have not yet taken the lock; and how many producers have added under the lock and have not yet
-- woken one or all.
pub record System : Type 0 where
  pub my_data : ℕ
  pub asleep : ℕ
  pub asleep_exclusive : ℕ
  pub woken : ℕ
  pub woken_exclusive : ℕ
  pub passed : ℕ
  pub waking : ℕ
  pub waking_all : ℕ

-- `my_data > 0`
abbrev pub is_positive : ℕ → Bool
is_positive n = not (n == 0) && ltb n (2 ^ 63)

abbrev pub pass : System → System
pass s = record s { passed = s.passed + 1 }

-- The calls with WQ, WQ_EX, WQ_WAKE_UP, WQ_WAKE_UP_ALL and any other command; a woken consumer of either kind that goes on; a
-- signal to one of either kind that sleeps; and a consumer that takes the lock;
-- and a producer that wakes one or all after it has let go of the lock.
pub data Event : Type 0 where
  wq wq_ex other : Event
  wq_wake_up wq_wake_up_all : ℕ → Event
  retest retest_exclusive signal signal_exclusive decrement : Event
  wake_one wake_every : Event

-- The number by which the producers' calls change the counter.
abbrev add : ℕ → System → System
add arg s = record s { my_data = (s.my_data + arg) % 2 ^ 64 }

-- `wake_up_interruptible` wakes every process that does not wait exclusively, and one that does.
abbrev wake_up : System → System
wake_up s = record s {
  asleep = 0;
  woken = s.woken + s.asleep;
  asleep_exclusive = s.asleep_exclusive - 1;
  woken_exclusive = s.woken_exclusive + min 1 s.asleep_exclusive;
}

-- `wake_up_interruptible_all`
abbrev wake_up_all : System → System
wake_up_all s = record s {
  asleep = 0;
  woken = s.woken + s.asleep;
  asleep_exclusive = 0;
  woken_exclusive = s.woken_exclusive + s.asleep_exclusive;
}

-- A call that a signal ends gives -ERESTARTSYS and takes nothing; the others return the counter.
unfoldable pub step : Event → System → System
step wq s = if is_positive s.my_data then pass s else record s { asleep = s.asleep + 1 }
step wq_ex s =
    if is_positive s.my_data then pass s else record s { asleep_exclusive = s.asleep_exclusive + 1 }
step other s = pass s
step (wq_wake_up arg) s = record (add arg s) { waking = s.waking + 1 }
step (wq_wake_up_all arg) s = record (add arg s) { waking_all = s.waking_all + 1 }
step wake_one s = if s.waking == 0 then s else wake_up (record s { waking = s.waking - 1 })
step wake_every s =
    if s.waking_all == 0 then s else wake_up_all (record s { waking_all = s.waking_all - 1 })
step retest s =
    if s.woken == 0
    then s
    else (if is_positive s.my_data
        then record s { woken = s.woken - 1; passed = s.passed + 1 }
        else record s { woken = s.woken - 1; asleep = s.asleep + 1 })
step retest_exclusive s =
    if s.woken_exclusive == 0
    then s
    else (if is_positive s.my_data
        then record s { woken_exclusive = s.woken_exclusive - 1; passed = s.passed + 1 }
        else record s {
          woken_exclusive = s.woken_exclusive - 1;
          asleep_exclusive = s.asleep_exclusive + 1;
        })
step signal s = record s { asleep = s.asleep - 1 }
step signal_exclusive s = record s { asleep_exclusive = s.asleep_exclusive - 1 }
step decrement s =
    if s.passed == 0
    then s
    else record s { my_data = (s.my_data + 2 ^ 64 - 1) % 2 ^ 64; passed = s.passed - 1 }

unfoldable pub run : List Event → System → System
run [] s = s
run (e ∷ es) s = run es (step e s)

-- `simple_block_2_init`
abbrev pub init : System
init = record {
  my_data = 0;
  asleep = 0;
  asleep_exclusive = 0;
  woken = 0;
  woken_exclusive = 0;
  passed = 0;
  waking = 0;
  waking_all = 0;
}
