-- ===== src/SensorProc.antt =====
-- hw_event_handling/exercise3/sensor_proc.c: the times at which a sensor has detected something, in a list that the proc
-- file shows. An access through NULL or past `proc_buf` has no result. `long` has 32 bits.
pub mod Life
mod Tests
use embedded_system_software.Base.{
  ℕ, zero, suc, ◌+◌, ◌-◌, ◌*◌, ◌/◌, ◌%◌, ◌^◌, ◌≤◌, ◌<◌, bit_and, bit_or, ◌≡◌, refl, sym, ap, subst,
  ◌∙◌, ◌≢◌, ◌↔◌, ◌⊎◌, inl, inr, Bool, true, false, not, ◌&&◌, ◌||◌, Option, none, some, List, [],
  ◌∷◌, ◌++◌, map, arith, ltb, leb, ◌==◌, if◌then◌else◌, ltb→lt, lt→ltb, le→ltb_false, ==_iff,
  ==_refl, Bool-cases, Option-cases, ◌>>=◌, length, get_elem?, get_or, set, total-set, take, drop,
  replicate, overlay, All, total, total-put_at, length-append, length-set, get_elem?-set_self,
  get_elem?-set_ne, get_elem?-lt, get_elem?-none, set-set, lt_of_get_elem?, length-overlay,
  length-take, length-drop, length-replicate, take-overlay, take_all, overlay-append, append_assoc,
  take_all, overlay-append, append_assoc, All-append, All-get_elem?, All-set, ℤ, pos, negsuc, ltb_ℤ,
  eqb_ℤ, is_negative, ok_code, minus_one, minus_two, as_int, as_int-small, at, put_at,
  length-put_at, at-put_at_self, at-put_at_ne, put_at-put_at, All-put_at, All-at, has_flag, strlen,
  update, update_self, update_ne, IsSome, IsSome-value, update-none, some-ne-none,
}
use embedded_system_software.Actuator.{gpio_free}
use mathlib.Core.Option
use embedded_system_software.Format.{print_int}
use embedded_system_software.Kernel.{Kernel, Heap, no_calls, kmalloc, kfree}

-- `PROC_BUF_SIZE`
abbrev pub proc_buf_size : ℕ
proc_buf_size = 256

-- `time_list_head` as the seconds of its nodes, first to last; the calls of the allocator; whether the interrupt is
-- requested; and how often it was freed when it was not.
pub record Sensor : Type 0 where
  pub time_list : List ℕ
  pub heap : Heap
  pub requested : Bool
  pub bad_frees : ℕ
  pub gpios : List ℕ

-- `sprintf(proc_buf, "[%d] time: %ld", index, sec)`
abbrev pub line : ℕ → ℕ → List ℕ
line index sec = 91 ∷ print_int index (93 ∷ 32 ∷ 116 ∷ 105 ∷ 109 ∷ 101 ∷ 58 ∷ 32 ∷ print_int sec [])

-- The lines of the nodes from the number `index` on.
unfoldable pub show_from : ℕ → List ℕ → Option (List ℕ)
show_from index [] = some []
show_from index (sec ∷ times) =
    let rest = show_from ((index + 1) % 2 ^ 32) times in
    if ltb (length (line index sec)) proc_buf_size
    then Option.map (λ text. line index sec ++ 10 ∷ text) rest
    else none

-- Without a node the text is `empty list` and two line ends.
abbrev pub show_list : List ℕ → Option (List ℕ)
show_list [] = some (101 ∷ 109 ∷ 112 ∷ 116 ∷ 121 ∷ 32 ∷ 108 ∷ 105 ∷ 115 ∷ 116 ∷ 10 ∷ 10 ∷ [])
show_list (sec ∷ times) = show_from 0 (sec ∷ times)

abbrev pub sensor_proc_show : Sensor → Option (List ℕ)
sensor_proc_show s = show_list s.time_list

abbrev pub sensor_proc_isr : Kernel → ℕ → Sensor → Option Sensor
sensor_proc_isr k now s =
    if k.kmalloc_ok
    then some (record s { time_list = s.time_list ++ now ∷ []; heap = kmalloc s.heap })
    else none

abbrev pub free_irq : Sensor → Sensor
free_irq s = record s {
  requested = false;
  bad_frees = s.bad_frees + (if s.requested then 0 else 1);
}

-- `granted` is whether `request_irq` gives 0. The result is 0 both ways.
abbrev pub sensor_proc_init : Bool → ℤ × Sensor
sensor_proc_init granted =
    let s : Sensor = record {
      time_list = [];
      heap = no_calls;
      requested = granted;
      bad_frees = 0;
      gpios = 17 ∷ [];
    } in
    (pos 0, if granted then s else free_irq s)

-- `list_del` and `kfree` of each node.
unfoldable pub free_list : List ℕ → Heap → Heap
free_list [] h = h
free_list (sec ∷ times) h = free_list times (kfree h)

abbrev pub sensor_proc_exit : Sensor → Sensor
sensor_proc_exit s =
    let t = free_irq s in
    record t { time_list = []; heap = free_list s.time_list s.heap; gpios = gpio_free 17 s.gpios }
