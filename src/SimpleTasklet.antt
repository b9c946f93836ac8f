-- ===== src/SimpleTasklet.antt =====
-- deferrable_functions/exercise1/simple_tasklet.c: an interrupt that leaves its work to a tasklet.
pub mod Coalesce
mod Tests
use embedded_system_software.Base.{
  ℕ, zero, suc, ◌+◌, ◌-◌, ◌*◌, ◌/◌, ◌%◌, ◌^◌, ◌≤◌, ◌<◌, bit_and, bit_or, ◌≡◌, refl, sym, ap, subst,
  ◌∙◌, ◌≢◌, ◌↔◌, ◌⊎◌, inl, inr, Bool, true, false, not, ◌&&◌, ◌||◌, Option, none, some, List, [],
  ◌∷◌, ◌++◌, map, arith, ltb, leb, ◌==◌, if◌then◌else◌, ltb→lt, lt→ltb, le→ltb_false, ==_iff,
  ==_refl, Bool-cases, Option-cases, ◌>>=◌, length, get_elem?, get_or, set, total-set, take, drop,
  replicate, overlay, All, total, total-put_at, length-append, length-set, get_elem?-set_self,
  get_elem?-set_ne, get_elem?-lt, get_elem?-none, set-set, lt_of_get_elem?, length-overlay,
  length-take, length-drop, length-replicate, take-overlay, take_all, append-nil, overlay-append,
  append_assoc, All-append, All-get_elem?, All-set, ℤ, pos, negsuc, ltb_ℤ, eqb_ℤ, is_negative,
  ok_code, minus_one, minus_two, as_int, as_int-small, put_at, length-put_at, at-put_at_self,
  at-put_at_ne, put_at-put_at, All-put_at, All-at, has_flag, strlen, update, update_self, update_ne,
  IsSome, IsSome-value, update-none, some-ne-none,
}
use embedded_system_software.Actuator.{gpio_free}

-- `struct my_data`
pub record MyData : Type 0 where
  pub year : ℕ
  pub month : ℕ
  pub day : ℕ

-- The data of the tasklet, whether the tasklet is scheduled, what it has printed, whether the interrupt is requested, how often it
-- was freed when it was not, and the pins requested.
pub record Module : Type 0 where
  pub my_tasklet_data : MyData
  pub scheduled : Bool
  pub printed : List MyData
  pub requested : Bool
  pub bad_frees : ℕ
  pub gpios : List ℕ

unfoldable pub simple_tasklet_func : Module → Module
simple_tasklet_func s = record s { printed = s.printed ++ (s.my_tasklet_data ∷ []) }

-- A tasklet that is scheduled already stays scheduled once.
unfoldable pub simple_tasklet_isr : Module → Module
simple_tasklet_isr s = record s { scheduled = true }

-- The kernel runs the tasklet if it is scheduled.
abbrev pub run_tasklet : Module → Module
run_tasklet s = if s.scheduled then simple_tasklet_func (record s { scheduled = false }) else s

pub data Event : Type 0 where
  press softirq : Event

unfoldable pub step : Event → Module → Module
step press s = if s.requested then simple_tasklet_isr s else s
step softirq s = run_tasklet s

unfoldable pub run : List Event → Module → Module
run [] s = s
run (e ∷ es) s = run es (step e s)

-- `granted` is whether `request_irq` gives 0.
abbrev pub simple_tasklet_init : Bool → ℤ × Module
simple_tasklet_init granted = (
  ok_code,
  record {
    my_tasklet_data = record { year = 2020; month = 6; day = 14 };
    scheduled = false;
    printed = [];
    requested = granted;
    bad_frees = if granted then 0 else 1;
    gpios = 17 ∷ [];
  },
)

-- `tasklet_kill` waits until a tasklet that is scheduled has run.
unfoldable pub tasklet_kill : Module → Module
tasklet_kill s = run_tasklet s

abbrev pub release : Module → Module
release s = record s {
  requested = false;
  bad_frees = s.bad_frees + (if s.requested then 0 else 1);
  gpios = gpio_free 17 s.gpios;
}

-- `simple_tasklet_exit`, with what happens between the end of the tasklet and that of the interrupt.
unfoldable pub simple_tasklet_exit : List Event → Module → Module
simple_tasklet_exit between s = release (run between (tasklet_kill s))
