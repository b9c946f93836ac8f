-- ===== src/WaitQueue.antt =====
-- blocking_io/exercise1/simple_block_1.c: a counter that consumers wait for. A consumer waits without the lock until the
-- counter is positive, and takes the lock after that, so the two are separate steps. `long` has 64 bits.
pub mod Consumers
mod Tests
use embedded_system_software.Base.{
  ℕ, zero, suc, ◌+◌, ◌-◌, ◌*◌, ◌/◌, ◌%◌, ◌^◌, ◌≤◌, ◌<◌, bit_and, bit_or, ◌≡◌, refl, sym, ap, subst,
  ◌∙◌, ◌≢◌, ◌↔◌, ◌⊎◌, inl, inr, Bool, true, false, not, ◌&&◌, ◌||◌, Option, none, some, List, [],
  ◌∷◌, ◌++◌, map, arith, ltb, leb, ◌==◌, if◌then◌else◌, ltb→lt, lt→ltb, le→ltb_false, ==_iff,
  ==_refl, Bool-cases, Option-cases, ◌>>=◌, length, get_elem?, get_or, set, total-set, drop,
  replicate, overlay, All, total, total-put_at, length-append, length-set, get_elem?-set_self,
  get_elem?-set_ne, get_elem?-lt, get_elem?-none, set-set, lt_of_get_elem?, length-overlay,
  length-take, length-drop, length-replicate, take-overlay, All-append, All-get_elem?, All-set, ℤ,
  pos, negsuc, ltb_ℤ, eqb_ℤ, is_negative, ok_code, minus_one, minus_two, as_int, as_int-small, at,
  put_at, length-put_at, at-put_at_self, at-put_at_ne, put_at-put_at, All-put_at, All-at, has_flag,
  update, update_self, update_ne, IsSome, IsSome-value, update-none, some-ne-none,
}

-- The three ways to wait: WQ, WQ_INTERRUPTIBLE and WQ_INTERRUPTIBLE_TIMEOUT.
pub data Wait : Type 0 where
  wq wq_interruptible wq_interruptible_timeout : Wait

-- `my_data` as a bit pattern; how many processes wait in each way; and how many have left the wait and have not yet taken
-- the lock.
pub record System : Type 0 where
  pub my_data : ℕ
  pub waiting : ℕ
  pub waiting_interruptible : ℕ
  pub waiting_timeout : ℕ
  pub passed : ℕ

-- `my_data > 0`
abbrev pub is_positive : ℕ → Bool
is_positive n = not (n == 0) && ltb n (2 ^ 63)

abbrev pub waiters : Wait → System → ℕ
waiters wq s = s.waiting
waiters wq_interruptible s = s.waiting_interruptible
waiters wq_interruptible_timeout s = s.waiting_timeout

abbrev pub set_waiters : Wait → ℕ → System → System
set_waiters wq n s = record s { waiting = n }
set_waiters wq_interruptible n s = record s { waiting_interruptible = n }
set_waiters wq_interruptible_timeout n s = record s { waiting_timeout = n }

abbrev pub pass : System → System
pass s = record s { passed = s.passed + 1 }

abbrev pub leave : Wait → System → System
leave w s = set_waiters w (waiters w s - 1) s

-- What happens: a consumer's call, a waiter that tests the condition, a signal, the end of the two seconds, a consumer that
-- takes the lock, a producer's call, and a call with any other command, which does not wait.
pub data Event : Type 0 where
  consume wake signal : Wait → Event
  timeout decrement other : Event
  produce : ℕ → Event

-- The result of an `ioctl` that ends in this step, as a bit pattern, and the state. A wait that a signal ends has a
-- negative result, -ERESTARTSYS, which the call returns, and one that the time ends has 0. A signal does not end `wait_event`.
-- The counter is returned as it is when the lock is given back.
unfoldable pub step : Event → System → Option ℕ × System
step (consume w) s =
    if is_positive s.my_data then (none, pass s) else (none, set_waiters w (waiters w s + 1) s)
step (wake w) s =
    if is_positive s.my_data && not (waiters w s == 0) then (none, pass (leave w s)) else (none, s)
step (signal wq) s = (none, s)
step (signal wq_interruptible) s =
    if s.waiting_interruptible == 0
    then (none, s)
    else (some (2 ^ 64 - 512), leave wq_interruptible s)
step (signal wq_interruptible_timeout) s =
    if s.waiting_timeout == 0
    then (none, s)
    else (some (2 ^ 64 - 512), leave wq_interruptible_timeout s)
step other s = (none, pass s)
step timeout s =
    if s.waiting_timeout == 0 then (none, s) else (none, pass (leave wq_interruptible_timeout s))
step decrement s = if s.passed == 0 then (none, s) else (
  some ((s.my_data + 2 ^ 64 - 1) % 2 ^ 64),
  record s { my_data = (s.my_data + 2 ^ 64 - 1) % 2 ^ 64; passed = s.passed - 1 },
)
step (produce arg) s =
    (some ((s.my_data + arg) % 2 ^ 64), record s { my_data = (s.my_data + arg) % 2 ^ 64 })

unfoldable pub run : List Event → System → System
run [] s = s
run (e ∷ es) s = run es (step e s).1

-- `simple_block_1_init`
abbrev pub init : System
init = record {
  my_data = 0;
  waiting = 0;
  waiting_interruptible = 0;
  waiting_timeout = 0;
  passed = 0;
}
