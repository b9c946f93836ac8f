-- ===== src/WorkQueue.antt =====
-- deferrable_functions/exercise3/simple_workqueue.c: an interrupt allocates an item of work and queues it, and the
-- worker frees it after it has run.
pub mod Balance
mod Tests
use embedded_system_software.Base.{
  ℕ, zero, suc, ◌+◌, ◌-◌, ◌*◌, ◌/◌, ◌%◌, ◌^◌, ◌≤◌, ◌<◌, bit_and, bit_or, ◌≡◌, refl, sym, ap, subst,
  ◌∙◌, ◌≢◌, ◌↔◌, ◌⊎◌, inl, inr, Bool, true, false, not, ◌&&◌, ◌||◌, Option, none, some, List, [],
  ◌∷◌, ◌++◌, map, arith, ltb, leb, ◌==◌, if◌then◌else◌, ltb→lt, lt→ltb, le→ltb_false, ==_iff,
  ==_refl, Bool-cases, Option-cases, ◌>>=◌, length, get_elem?, get_or, set, total-set, take, drop,
  replicate, overlay, All, total, total-put_at, length-append, length-set, get_elem?-set_self,
  get_elem?-set_ne, get_elem?-lt, get_elem?-none, set-set, lt_of_get_elem?, length-overlay,
  length-take, length-drop, length-replicate, take-overlay, take_all, append-nil, overlay-append,
  append_assoc, All-append, All-get_elem?, All-set, ℤ, pos, negsuc, ltb_ℤ, eqb_ℤ, is_negative,
  ok_code, minus_one, minus_two, as_int, as_int-small, at, put_at, length-put_at, at-put_at_self,
  at-put_at_ne, put_at-put_at, All-put_at, All-at, has_flag, strlen, update, update_self, update_ne,
  IsSome, IsSome-value, update-none, some-ne-none,
}
use embedded_system_software.Actuator.{gpio_free}
use embedded_system_software.Kernel.{Heap, no_calls, kmalloc, kfree}

-- Whether `my_wq` is there; the items in it, the one that runs included; how often a date was printed; the allocator's
-- calls; and whether the interrupt is requested.
pub record Module : Type 0 where
  pub my_wq : Bool
  pub queued : ℕ
  pub printed : ℕ
  pub heap : Heap
  pub requested : Bool
  pub bad_frees : ℕ
  pub gpios : List ℕ

-- The end of `my_work_func`, which prints and frees its item.
unfoldable pub my_work_func : Module → Module
my_work_func s = record s { printed = s.printed + 1; heap = kfree s.heap }

-- The queue gives its first item to the function, if it has one.
unfoldable pub work : Module → Module
work s = if s.queued == 0 then s else my_work_func (record s { queued = s.queued - 1 })

-- `memory` is whether `kmalloc` finds memory. An item that is new can always be queued.
unfoldable pub simple_workqueue_isr : Bool → Module → Module
simple_workqueue_isr memory s =
    if s.my_wq && memory then record s { queued = s.queued + 1; heap = kmalloc s.heap } else s

abbrev pub free_irq : Module → Module
free_irq s = record s {
  requested = false;
  bad_frees = s.bad_frees + (if s.requested then 0 else 1);
}

-- `created` is whether `create_workqueue` gives a queue, and `granted` whether `request_irq` gives 0.
abbrev pub simple_workqueue_init : Bool → Bool → ℤ × Module
simple_workqueue_init created granted =
    let s : Module = record {
      my_wq = created;
      queued = 0;
      printed = 0;
      heap = no_calls;
      requested = granted;
      bad_frees = 0;
      gpios = 17 ∷ [];
    } in
    (pos 0, if granted then s else free_irq s)

-- `flush_workqueue`: the items that are queued run, first to last.
unfoldable pub flush : ℕ → Module → Module
flush zero s = s
flush (suc n) s = flush n (work s)

-- Without a queue the removal uses NULL.
abbrev pub simple_workqueue_exit : Module → Option Module
simple_workqueue_exit s =
    let t = record (free_irq s) { gpios = gpio_free 17 s.gpios } in
    if s.my_wq then some (record (flush t.queued t) { my_wq = false }) else none

pub data Event : Type 0 where
  interrupt : Bool → Event
  worker : Event

-- An interrupt comes while it is requested.
unfoldable pub step : Event → Module → Module
step (interrupt memory) s = if s.requested then simple_workqueue_isr memory s else s
step worker s = work s

unfoldable pub run : List Event → Module → Module
run [] s = s
run (e ∷ es) s = run es (step e s)
