-- ===== src/MotionLight.antt =====
-- hw_event_handling/challenge8/ch8_mod.c: a sensor turns a light on, and a timer turns it off. Time is in jiffies; the
-- kernel runs a timer at the jiffy at which it expires.
pub mod Delay
mod Tests
use embedded_system_software.Base.{
  ℕ, zero, suc, ◌+◌, ◌-◌, ◌*◌, ◌/◌, ◌%◌, ◌^◌, ◌≤◌, ◌<◌, bit_and, bit_or, ◌≡◌, refl, sym, ap, subst,
  ◌∙◌, ◌≢◌, ◌↔◌, ◌⊎◌, inl, inr, Bool, true, false, not, ◌&&◌, ◌||◌, Option, none, some, List, [],
  ◌∷◌, ◌++◌, map, arith, ltb, leb, ◌==◌, if◌then◌else◌, ltb→lt, lt→ltb, le→ltb_false, ==_iff,
  ==_refl, Bool-cases, Option-cases, ◌>>=◌, length, get_elem?, get_or, set, total-set, take, drop,
  replicate, overlay, All, total, total-put_at, length-append, length-set, get_elem?-set_self,
  get_elem?-set_ne, get_elem?-lt, get_elem?-none, set-set, lt_of_get_elem?, length-overlay,
  length-take, length-drop, length-replicate, take-overlay, take_all, append-nil, overlay-append,
  append_assoc, All-append, All-get_elem?, All-set, ℤ, pos, negsuc, ltb_ℤ, eqb_ℤ, is_negative,
  ok_code, minus_one, minus_two, as_int, as_int-small, at, put_at, length-put_at, at-put_at_self,
  at-put_at_ne, put_at-put_at, All-put_at, All-at, has_flag, strlen, update, update_self, update_ne,
  IsSome, IsSome-value, update-none, some-ne-none,
}
use embedded_system_software.Actuator.{gpio_free}

-- Jiffies are an `unsigned long` of 32 bits. `timer` as when it expires, if it is pending; `data` as `count`; the output LED1; whether the interrupt is requested, how often it
-- was freed when it was not, and the pins requested.
pub record Light : Type 0 where
  pub expires : Option ℕ
  pub delay_jiffies : ℕ
  pub count : ℕ
  pub led : Bool
  pub jiffies : ℕ
  pub requested : Bool
  pub bad_frees : ℕ
  pub gpios : List ℕ

unfoldable pub my_timer_func : Light → Light
my_timer_func s = record s { led = false }

-- `mod_timer`
abbrev mod_timer : ℕ → Light → Light
mod_timer t s = record s { expires = some t }

unfoldable pub ch8_mod_isr : Light → Light
ch8_mod_isr s =
    mod_timer ((s.jiffies + s.delay_jiffies) % 2 ^ 32)
      (record s { count = (s.count + 1) % 2 ^ 32; led = true })

-- `jiffies` is the time of the loading, and `granted` whether `request_irq` gives 0. The result is
-- 0 both ways.
abbrev pub ch8_mod_init : ℕ → ℕ → Bool → Light
ch8_mod_init two_seconds jiffies granted = record {
  expires = none;
  delay_jiffies = two_seconds;
  count = 0;
  led = false;
  jiffies = jiffies;
  requested = granted;
  bad_frees = if granted then 0 else 1;
  gpios = 17 ∷ 5 ∷ [];
}

pub data Event : Type 0 where
  detect tick : Event

-- What the kernel does when a jiffy begins; a timer is armed for less than 2 ^ 31 jiffies ahead.
abbrev pub expire : Option ℕ → Light → Light
expire none s = s
expire (some t) s = if t == s.jiffies then my_timer_func (record s { expires = none }) else s

-- A detection raises the interrupt while it is requested.
unfoldable pub step : Event → Light → Light
step detect s = if s.requested then ch8_mod_isr s else s
step tick s = expire s.expires (record s { jiffies = (s.jiffies + 1) % 2 ^ 32 })

unfoldable pub run : List Event → Light → Light
run [] s = s
run (e ∷ es) s = run es (step e s)

-- `ch8_mod_exit`: what happens between its two calls is `es`.
abbrev del_timer : Light → Light
del_timer s = record s { expires = none }

abbrev free_irq : Light → Light
free_irq s = record s {
  requested = false;
  bad_frees = s.bad_frees + (if s.requested then 0 else 1);
}

abbrev pub ch8_mod_exit : List Event → Light → Light
ch8_mod_exit es s =
    let t = free_irq (run es (del_timer s)) in
    record t { gpios = gpio_free 5 (gpio_free 17 t.gpios) }
