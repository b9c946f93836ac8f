-- ===== src/Switch.antt =====
-- assignment2/src/driver/sensor/switch/switch.c: the buttons and the distance sensor of the coffer.
-- The interrupt handlers fill a shared record and schedule a tasklet; the tasklets give every queue in
-- use a copy; `ioctl` hands the queues out. The tasklets and `ioctl` hold the lock with interrupts off,
-- so each call is one step. `unsigned long` has 32 bits, and `none` is a fault, as in KuIpc.
pub mod Events
pub mod Setup
pub mod Invariant
pub mod Safety
pub mod Spacing
pub mod Delivery
pub mod Echo
pub mod Debounce
mod Tests
use mathlib.Core.Option
use embedded_system_software.Base.{
  ℕ, ◌+◌, ◌-◌, ◌/◌, ◌%◌, ◌^◌, Bool, true, not, ◌&&◌, ◌||◌, Option, none, some, List, [], ◌∷◌, ◌++◌,
  ltb, ◌==◌, if◌then◌else◌, ◌>>=◌, ℤ, pos, negsuc, ltb_ℤ, is_negative, ok_code, minus_one, as_int,
  at, put_at,
}
use embedded_system_software.Kernel.{Heap, kfree}

abbrev pub queue_num : ℕ
queue_num = 10

-- The span of jiffies in which a second press is taken for the first.
abbrev pub debounce : ℕ
debounce = 20

-- `struct data_t`
pub record Sample : Type 0 where
  pub value : ℤ
  pub timestamp : ℕ

-- The module's variables. `trigger` has the levels written to the trigger pin, newest first;
-- a tasklet that has been scheduled and has not run is pending.
pub record Driver : Type 0 where
  pub switch_queues : List (List Sample)
  pub ultrasonic_queues : List (List Sample)
  pub queue_use : List ℕ
  pub pre : ℕ
  pub echo_valid_flag : ℕ
  pub echo_start : ℕ
  pub echo_stop : ℕ
  pub switch_data_tmp : Sample
  pub ultrasonic_data_tmp : Sample
  pub switch_pending : Bool
  pub ultrasonic_pending : Bool
  pub trigger : List ℕ
  pub heap : Heap

abbrev pub one : ℤ
one = pos 1

-- The table is read before the key is tested.
unfoldable pub switch_queue_get : Driver → ℤ → Option (ℤ × Driver)
switch_queue_get s key = do
  used ← at s.queue_use key
  if not (used == 0) || is_negative key || not (ltb_ℤ key (pos queue_num))
      then some (minus_one, s)
      else some (one, record s { queue_use = put_at s.queue_use key 1 })

-- `kfree` for every node of a queue.
pub free_nodes : List Sample → Heap → Heap
free_nodes [] h = h
free_nodes (d ∷ q) h = free_nodes q (kfree h)

unfoldable pub switch_queue_close : Driver → ℤ → Option (ℤ × Driver)
unfolding free_nodes
switch_queue_close s key = do
  used ← at s.queue_use key
  if used == 0 || is_negative key || not (ltb_ℤ key (pos queue_num))
      then some (minus_one, s)
      else (do
        q ← at s.switch_queues key
        u ← at s.ultrasonic_queues key
        some (
          one,
          record s {
            switch_queues = put_at s.switch_queues key [];
            ultrasonic_queues = put_at s.ultrasonic_queues key [];
            queue_use = put_at s.queue_use key 0;
            heap = free_nodes u (free_nodes q s.heap);
          },
        ))

-- Neither the key nor the use of the queue is tested.
abbrev pub take_switch : Driver → ℤ → List Sample → ℤ × Driver
take_switch s key [] = (minus_one, s)
take_switch s key (d ∷ q) =
    (d.value, record s { switch_queues = put_at s.switch_queues key q; heap = kfree s.heap })

unfoldable pub switch_recv : Driver → ℤ → Option (ℤ × Driver)
switch_recv s key = Option.map (take_switch s key) (at s.switch_queues key)

abbrev pub take_ultrasonic : Driver → ℤ → List Sample → ℤ × Driver
take_ultrasonic s key [] = (minus_one, s)
take_ultrasonic s key (d ∷ q) = (
  d.value,
  record s { ultrasonic_queues = put_at s.ultrasonic_queues key q; heap = kfree s.heap },
)

unfoldable pub ultrasonic_recv : Driver → ℤ → Option (ℤ × Driver)
ultrasonic_recv s key = Option.map (take_ultrasonic s key) (at s.ultrasonic_queues key)

-- The loop of both tasklets: a copy for each queue in use.
pub broadcast : Sample → List ℕ → List (List Sample) → List (List Sample)
broadcast d [] qs = qs
broadcast d (u ∷ us) [] = []
broadcast d (u ∷ us) (q ∷ qs) = (if u == 0 then q else q ++ (d ∷ [])) ∷ broadcast d us qs

-- How often the loop calls `kmalloc`.
pub users : List ℕ → ℕ
users [] = 0
users (u ∷ us) = (if u == 0 then 0 else 1) + users us

abbrev pub allocate : ℕ → Heap → Heap
allocate n h = record h { kmallocs = h.kmallocs + n }

-- The distance sensor is asked for a reading only when the last one is done. The tasklet runs to its
-- end before the echo comes.
abbrev pub start_ultrasonic : Driver → Driver
start_ultrasonic s =
    if s.echo_valid_flag == 3
    then record s {
      echo_start = 1;
      echo_stop = 1;
      echo_valid_flag = 1;
      trigger = 0 ∷ 1 ∷ s.trigger;
    }
    else s

-- The argument tells whether `kmalloc` succeeds; the loop writes through the pointer unchecked.
unfoldable pub switch_tasklet_func : Bool → Driver → Option Driver
unfolding broadcast users
switch_tasklet_func kmalloc_ok s =
    let d = s.switch_data_tmp in
    if ltb ((s.pre + debounce) % 2 ^ 32) d.timestamp
    then (if not kmalloc_ok && not (users s.queue_use == 0)
        then none
        else some (
            start_ultrasonic (record s {
              switch_queues = broadcast d s.queue_use s.switch_queues;
              pre = d.timestamp;
              heap = allocate (users s.queue_use) s.heap;
            })))
    else some s

unfoldable pub ultrasonic_tasklet_func : Bool → Driver → Option Driver
unfolding broadcast users
ultrasonic_tasklet_func kmalloc_ok s =
    if not kmalloc_ok && not (users s.queue_use == 0)
    then none
    else some (record s {
      ultrasonic_queues = broadcast s.ultrasonic_data_tmp s.queue_use s.ultrasonic_queues;
      heap = allocate (users s.queue_use) s.heap;
    })

-- `switch1_irq_isr`, `switch2_irq_isr` and `switch3_irq_isr`, which differ in the value alone.
unfoldable pub switch_irq_isr : ℕ → ℕ → Driver → Driver
switch_irq_isr button jiffies s = record s {
  switch_data_tmp = record { value = pos button; timestamp = jiffies };
  switch_pending = true;
}

-- Division of an `int` by a positive one, towards 0.
abbrev pub div_int : ℤ → ℕ → ℤ
div_int (pos n) d = pos (n / d)
div_int (negsuc n) d = if (n + 1) / d == 0 then pos 0 else negsuc ((n + 1) / d - 1)

-- The low 32 bits of an `s64`.
abbrev pub int_of : ℤ → ℤ
int_of (pos n) = as_int n
int_of (negsuc n) = as_int (2 ^ 64 - 1 - n)

-- What the handler of the echo pin reads: the clock, the pin and the jiffies.
pub record Edge : Type 0 where
  pub now : ℕ
  pub echo : ℕ
  pub jiffies : ℕ

module _ (elapsed_us : ℕ → ℕ → ℤ) where
  -- `elapsed_us stop start` is the kernel's `ktime_to_us(ktime_sub(stop, start))`.
  unfoldable pub ultrasonic_isr : Edge → Driver → Driver
  ultrasonic_isr e s =
      if s.echo_valid_flag == 1
      then (if e.echo == 1 then record s { echo_start = e.now; echo_valid_flag = 2 } else s)
      else if s.echo_valid_flag == 2
      then (if e.echo == 0
          then record s {
            echo_stop = e.now;
            echo_valid_flag = 3;
            ultrasonic_data_tmp = record {
              value = div_int (int_of (elapsed_us e.now s.echo_start)) 58;
              timestamp = e.jiffies;
            };
            ultrasonic_pending = true;
          }
          else s)
      else s

-- The commands of `switch_ioctl`, with their argument.
pub data Request : Type 0 where
  queue_get queue_close recv_switch recv_ultrasonic : ℕ → Request
  unknown : Request

unfoldable pub switch_ioctl : Driver → Request → Option (ℤ × Driver)
switch_ioctl s (queue_get arg) = switch_queue_get s (as_int arg)
switch_ioctl s (queue_close arg) = switch_queue_close s (as_int arg)
switch_ioctl s (recv_switch arg) = switch_recv s (as_int arg)
switch_ioctl s (recv_ultrasonic arg) = ultrasonic_recv s (as_int arg)
switch_ioctl s unknown = some (ok_code, s)
