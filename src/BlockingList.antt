-- ===== src/BlockingList.antt =====
-- blocking_io/challenge4/ch4_mod_201711395.c: the message list whose readers sleep while it is empty. A reader lets go of
-- the lock to sleep and takes it again when it is awake, so a read of an empty list is two steps; all else is one.
-- `none` is a fault, as in KuIpc.
pub mod Fifo
pub mod Programs
pub mod Readers
mod Tests
use mathlib.Core.Option
use embedded_system_software.Base.{
  ℕ, zero, suc, ◌+◌, ◌-◌, ◌*◌, ◌/◌, ◌%◌, ◌^◌, ◌≤◌, ◌<◌, bit_and, bit_or, ◌≡◌, refl, sym, ap, subst,
  ◌∙◌, ◌≢◌, ◌↔◌, ◌⊎◌, inl, inr, Bool, true, false, not, ◌&&◌, ◌||◌, Option, none, some, List, [],
  ◌∷◌, ◌++◌, map, arith, ltb, leb, ◌==◌, if◌then◌else◌, ltb→lt, lt→ltb, le→ltb_false, ==_iff,
  ==_refl, Bool-cases, Option-cases, ◌>>=◌, length, get_elem?, get_or, set, total-set, take, drop,
  replicate, overlay, All, total, total-put_at, length-append, length-set, get_elem?-set_self,
  get_elem?-set_ne, get_elem?-lt, get_elem?-none, set-set, lt_of_get_elem?, length-overlay,
  length-take, length-drop, length-replicate, take-overlay, take_all, append-nil, overlay-append,
  append_assoc, All-append, All-get_elem?, All-set, ℤ, pos, negsuc, ltb_ℤ, eqb_ℤ, is_negative,
  ok_code, minus_one, minus_two, as_int, as_int-small, at, put_at, length-put_at, at-put_at_self,
  at-put_at_ne, put_at-put_at, All-put_at, All-at, has_flag, strlen, update, update_self, update_ne,
  IsSome, IsSome-value, update-none, some-ne-none,
}
use embedded_system_software.Kernel.{Kernel, Heap, no_calls, kmalloc, vmalloc, kfree, vfree}
use embedded_system_software.MsgList.{Msg, msg_size, str_of, is_refused, copied_in, copied_out}

-- `msg_count` is the bit pattern of an `int`.
pub record Driver : Type 0 where
  pub messages : List Msg
  pub msg_count : ℕ
  pub heap : Heap

-- The driver, how many readers sleep, and how many have been woken and have not yet got the lock.
pub record System : Type 0 where
  pub driver : Driver
  pub asleep : ℕ
  pub awake : ℕ

-- The part of `ch4_read` that runs under the lock with a message to take: the first of the list. In an empty list
-- `list_entry` gives the head, whose `msg` is a null pointer. The text is printed first; without a terminator `printk` reads on.
abbrev pub take_message : Kernel → List ℕ → ℕ → Heap → List Msg → Option (ℤ × List ℕ × Driver)
take_message k user count h [] = none
take_message k user count h (b ∷ q) =
    Option.map
      (λ n. (
        as_int (k.to_user user msg_size),
        copied_out k b user,
        record { messages = q; msg_count = (count + 2 ^ 32 - 1) % 2 ^ 32; heap = vfree (kfree h) },
      ))
      (strlen (str_of b))

abbrev pub take_from : Kernel → List ℕ → Driver → Option (ℤ × List ℕ × Driver)
take_from k user s = take_message k user s.msg_count s.heap s.messages

abbrev pub is_empty : List Msg → Bool
is_empty [] = true
is_empty (b ∷ q) = false

-- What a call gives back when it ends: its code, and the user memory that its argument leads to.
abbrev pub Reply : Type 0
Reply = ℤ × List ℕ

-- `ch4_read` up to its return or to its sleep, and the rest of it after the sleep.
unfoldable pub ch4_read : Kernel → List ℕ → System → Option (Option Reply × System)
ch4_read k user s =
    if is_empty s.driver.messages
    then some (none, record s { asleep = s.asleep + 1 })
    else Option.map (λ t. (some (t.0, t.1), record s { driver = t.2 })) (take_from k user s.driver)

unfoldable pub ch4_read_rest : Kernel → List ℕ → System → Option (Option Reply × System)
ch4_read_rest k user s =
    if s.awake == 0
    then some (none, s)
    else Option.map (λ t. (some (t.0, t.1), record s { driver = t.2; awake = s.awake - 1 }))
        (take_from k user s.driver)

-- One sleeper is awake.
abbrev pub rise : System → System
rise s = if s.asleep == 0 then s else record s { asleep = s.asleep - 1; awake = s.awake + 1 }

-- The condition of `wait_event_interruptible`, tested without the lock: `msg_count > 0`.
abbrev pub may_rise : System → Bool
may_rise s = not (s.driver.msg_count == 0) && ltb s.driver.msg_count (2 ^ 31)

unfoldable pub ch4_write : Kernel → List ℕ → Driver → Option (ℤ × Driver)
ch4_write k user s =
    if is_refused user
    then some (minus_one, s)
    else if not (k.vmalloc_ok && k.kmalloc_ok)
    then none
    else Option.map
        (λ n. (
          as_int (k.from_user user msg_size),
          record {
            messages = s.messages ++ (copied_in k user ∷ []);
            msg_count = (s.msg_count + 1) % 2 ^ 32;
            heap = kmalloc (vmalloc s.heap);
          },
        ))
        (strlen (str_of (copied_in k user)))

-- What happens: a call, a sleeper that finds messages, a sleeper that a signal wakes, whose result the reader does not
-- test, and a reader that goes on with the lock.
pub data Event : Type 0 where
  read write resume : Kernel → List ℕ → Event
  wake signal : Event

unfoldable pub step : Event → System → Option (Option Reply × System)
step (read k user) s = ch4_read k user s
step (write k user) s =
    Option.map (λ t. (some (t.0, user), record s { driver = t.1 })) (ch4_write k user s.driver)
step (resume k user) s = ch4_read_rest k user s
step wake s = some (none, if may_rise s then rise s else s)
step signal s = some (none, rise s)

unfoldable pub run : List Event → System → Option System
run [] s = some s
run (e ∷ es) s = do t ← step e s; run es t.1

-- `ch4_init`; the argument is what `cdev_add` returns.
unfoldable pub ch4_init : ℤ → ℤ × Driver
ch4_init added = (
  if is_negative added then minus_one else ok_code,
  record { messages = []; msg_count = 0; heap = no_calls },
)

-- The loop of `ch4_exit`.
unfoldable pub free_messages : List Msg → Heap → Heap
free_messages [] h = h
free_messages (b ∷ q) h = free_messages q (vfree (kfree h))

unfoldable pub ch4_exit : Driver → Heap
ch4_exit s = free_messages s.messages s.heap
