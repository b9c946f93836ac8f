-- ===== src/SimpleSensor.antt =====
-- hw_event_handling/exercise2/simple_sensor.c: a motion sensor whose interrupt is on while a program has its device open.
pub mod Opened
mod Tests
use embedded_system_software.Base.{
  ℕ, zero, suc, ◌+◌, ◌-◌, ◌*◌, ◌/◌, ◌%◌, ◌^◌, ◌≤◌, ◌<◌, bit_and, bit_or, ◌≡◌, refl, sym, ap, subst,
  ◌∙◌, ◌≢◌, ◌↔◌, ◌⊎◌, inl, inr, Bool, true, false, not, ◌&&◌, ◌||◌, Option, none, some, List, [],
  ◌∷◌, ◌++◌, map, arith, ltb, leb, ◌==◌, if◌then◌else◌, ltb→lt, lt→ltb, le→ltb_false, ==_iff,
  ==_refl, Bool-cases, Option-cases, ◌>>=◌, length, get_elem?, get_or, set, total-set, take, drop,
  replicate, overlay, All, total, total-put_at, length-append, length-set, get_elem?-set_self,
  get_elem?-set_ne, get_elem?-lt, get_elem?-none, set-set, lt_of_get_elem?, length-overlay,
  length-take, length-drop, length-replicate, take-overlay, take_all, append-nil, overlay-append,
  append_assoc, All-append, All-get_elem?, All-set, ℤ, pos, negsuc, ltb_ℤ, eqb_ℤ, is_negative,
  ok_code, minus_one, minus_two, as_int, as_int-small, put_at, length-put_at, at-put_at_self,
  at-put_at_ne, put_at-put_at, All-put_at, All-at, has_flag, strlen, update, update_self, update_ne,
  IsSome, IsSome-value, update-none, some-ne-none,
}
use embedded_system_software.Actuator.{gpio_free}

-- The static variables, with the seconds of the times; the interrupt: whether it is requested, how many calls of `disable_irq` are
-- not undone, whether an edge came while it was disabled, which the kernel keeps, and how often it was freed when it was not requested; the pins requested; and what the handler has printed.
pub record Sensor : Type 0 where
  pub start : ℕ
  pub recent : ℕ
  pub requested : Bool
  pub depth : ℕ
  pub pending : Bool
  pub bad_frees : ℕ
  pub gpios : List ℕ
  pub printed : List ℕ

-- The kernel warns of a call that undoes none and leaves the depth.
abbrev pub enable_irq : Sensor → Sensor
enable_irq s = record s { depth = s.depth - 1 }

abbrev pub disable_irq : Sensor → Sensor
disable_irq s = record s { depth = s.depth + 1 }

-- `simple_sensor_open` up to `enable_irq`, and the rest of it, from where interrupts may come in between.
unfoldable pub simple_sensor_open : Sensor → Sensor
simple_sensor_open s = enable_irq s

unfoldable pub simple_sensor_open_rest : ℕ → Sensor → ℤ × Sensor
simple_sensor_open_rest now s = (ok_code, record s { start = now })

unfoldable pub simple_sensor_release : Sensor → ℤ × Sensor
simple_sensor_release s = (ok_code, disable_irq s)

-- A difference of two `long`, as a bit pattern of 32 bits.
abbrev pub seconds : ℕ → ℕ → ℕ
seconds recent start = (recent + 2 ^ 32 - start) % 2 ^ 32

unfoldable pub simple_sensor_isr : ℕ → Sensor → Sensor
simple_sensor_isr now s = record s {
  recent = now;
  printed = s.printed ++ (seconds now s.start ∷ []);
}

-- What happens, with the seconds at which it does: the two parts of an opening, a closing, detections, and the kernel that
-- calls the handler for an edge that it has kept. It calls the handler while the interrupt is requested and not disabled, and keeps an edge
-- that comes while it is disabled.
pub data Event : Type 0 where
  starts detects replays : ℕ → Event
  opens closes : Event

abbrev pub edge : ℕ → Sensor → Sensor
edge now s = if s.depth == 0 then simple_sensor_isr now s else record s { pending = true }

unfoldable pub step : Event → Sensor → Sensor
step opens s = simple_sensor_open s
step (starts now) s = (simple_sensor_open_rest now s).1
step (detects now) s = if s.requested then edge now s else s
step (replays now) s =
    if s.requested && (s.pending && s.depth == 0)
    then simple_sensor_isr now (record s { pending = false })
    else s
step closes s = (simple_sensor_release s).1

unfoldable pub run : List Event → Sensor → Sensor
run [] s = s
run (e ∷ es) s = run es (step e s)

-- `granted` is whether `request_irq` gives 0.
abbrev pub simple_sensor_init : Bool → ℤ × Sensor
simple_sensor_init granted = (
  ok_code,
  record {
    start = 0;
    recent = 0;
    requested = granted;
    depth = if granted then 1 else 0;
    pending = false;
    bad_frees = if granted then 0 else 1;
    gpios = 17 ∷ [];
    printed = [];
  },
)

abbrev pub simple_sensor_exit : Sensor → Sensor
simple_sensor_exit s = record s {
  requested = false;
  bad_frees = s.bad_frees + (if s.requested then 0 else 1);
  gpios = gpio_free 17 s.gpios;
}
