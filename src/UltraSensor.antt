-- ===== src/UltraSensor.antt =====
-- sensor_and_actuator/exercise1/simple_ultra.c: one distance, measured when the module is loaded.
pub mod Reading
mod Tests
use embedded_system_software.Base.{
  ℕ, zero, suc, ◌+◌, ◌-◌, ◌*◌, ◌/◌, ◌%◌, ◌^◌, ◌≤◌, ◌<◌, bit_and, bit_or, ◌≡◌, refl, sym, ap, subst,
  ◌∙◌, ◌≢◌, ◌↔◌, ◌⊎◌, inl, inr, Bool, true, false, not, ◌&&◌, ◌||◌, Option, none, some, List, [],
  ◌∷◌, ◌++◌, map, arith, ltb, leb, ◌==◌, if◌then◌else◌, ltb→lt, lt→ltb, le→ltb_false, ==_iff,
  ==_refl, Bool-cases, Option-cases, ◌>>=◌, length, get_elem?, get_or, set, total-set, take, drop,
  replicate, overlay, All, total, total-put_at, length-append, length-set, get_elem?-set_self,
  get_elem?-set_ne, get_elem?-lt, get_elem?-none, set-set, lt_of_get_elem?, length-overlay,
  length-take, length-drop, length-replicate, take-overlay, take_all, append-nil, overlay-append,
  append_assoc, All-append, All-get_elem?, All-set, ℤ, pos, negsuc, ltb_ℤ, eqb_ℤ, is_negative,
  ok_code, minus_one, minus_two, as_int, as_int-small, at, put_at, length-put_at, at-put_at_self,
  at-put_at_ne, put_at-put_at, All-put_at, All-at, has_flag, strlen, update, update_self, update_ne,
  IsSome, IsSome-value, update-none, some-ne-none,
}
use embedded_system_software.Actuator.{gpio_free}
use embedded_system_software.Switch.{int_of, div_int, Edge}

-- The static variables, the distances printed, whether the interrupt is requested, how often it was freed when
-- it was not, and the pins requested.
pub record Sensor : Type 0 where
  pub echo_valid_flag : ℕ
  pub echo_start : ℕ
  pub echo_stop : ℕ
  pub printed : List ℤ
  pub requested : Bool
  pub bad_frees : ℕ
  pub gpios : List ℕ

module _ (elapsed_us : ℕ → ℕ → ℤ) where
  -- `elapsed_us stop start` is the kernel's `ktime_to_us(ktime_sub(stop, start))`.
  unfoldable pub simple_ultra_isr : Edge → Sensor → Sensor
  simple_ultra_isr e s =
      if s.echo_valid_flag == 1
      then (if e.echo == 1 then record s { echo_start = e.now; echo_valid_flag = 2 } else s)
      else if s.echo_valid_flag == 2
      then (if e.echo == 0
          then record s {
            echo_stop = e.now;
            printed = s.printed ++ div_int (int_of (elapsed_us e.now s.echo_start)) 58 ∷ [];
            echo_valid_flag = 3;
          }
          else s)
      else s

  -- The interrupts, from the first to the last.
  unfoldable pub run : List Edge → Sensor → Sensor
  run [] s = s
  run (e ∷ es) s = run es (simple_ultra_isr e s)

-- `granted` is whether `request_irq` gives 0. Interrupts that come before the trigger is pulled find the flag 3
-- or 0, which the handler passes over. The pulse on the trigger pin is not recorded.
abbrev pub simple_ultra_init : Bool → ℤ × Sensor
simple_ultra_init granted = (
  pos 0,
  record {
    echo_valid_flag = if granted then 1 else 3;
    echo_start = if granted then 1 else 0;
    echo_stop = if granted then 1 else 0;
    printed = [];
    requested = granted;
    bad_frees = if granted then 0 else 1;
    gpios = 17 ∷ 18 ∷ [];
  },
)

-- `simple_ultra_exit`
abbrev pub simple_ultra_exit : Sensor → Sensor
simple_ultra_exit s = record s {
  requested = false;
  bad_frees = s.bad_frees + (if s.requested then 0 else 1);
}
