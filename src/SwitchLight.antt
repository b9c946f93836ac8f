-- ===== src/SwitchLight.antt =====
-- gpio/challenge7/ch7_mod.c: a timer that reads a switch every half second and sets a light to it. Time is in jiffies; the
-- kernel runs a timer at the jiffy at which it expires.
pub mod Sampling
mod Tests
use embedded_system_software.Base.{
  ℕ, zero, suc, ◌+◌, ◌-◌, ◌*◌, ◌/◌, ◌%◌, ◌^◌, ◌≤◌, ◌<◌, bit_and, bit_or, ◌≡◌, refl, sym, ap, subst,
  ◌∙◌, ◌≢◌, ◌↔◌, ◌⊎◌, inl, inr, Bool, true, false, not, ◌&&◌, ◌||◌, Option, none, some, List, [],
  ◌∷◌, ◌++◌, map, arith, ltb, leb, ◌==◌, if◌then◌else◌, ltb→lt, lt→ltb, le→ltb_false, ==_iff,
  ==_refl, Bool-cases, Option-cases, ◌>>=◌, length, get_elem?, get_or, set, total-set, take, drop,
  replicate, overlay, All, total, total-put_at, length-append, length-set, get_elem?-set_self,
  get_elem?-set_ne, get_elem?-lt, get_elem?-none, set-set, lt_of_get_elem?, length-overlay,
  length-take, length-drop, length-replicate, take-overlay, take_all, append-nil, overlay-append,
  append_assoc, All-append, All-get_elem?, All-set, ℤ, pos, negsuc, ltb_ℤ, eqb_ℤ, is_negative,
  ok_code, minus_one, minus_two, as_int, as_int-small, at, put_at, length-put_at, at-put_at_self,
  at-put_at_ne, put_at-put_at, All-put_at, All-at, has_flag, strlen, update, update_self, update_ne,
  IsSome, IsSome-value, update-none, some-ne-none,
}
use embedded_system_software.Actuator.{gpio_free}

-- Jiffies are an `unsigned long` of 32 bits. `timer` as when it expires, if it is pending; the delay; `data`; the output LED1; the time; and the pins requested.
pub record Light : Type 0 where
  pub expires : Option ℕ
  pub delay_jiffies : ℕ
  pub count : ℕ
  pub led : Bool
  pub jiffies : ℕ
  pub gpios : List ℕ

-- `switch` is what `gpio_get_value` reads, as a test.
unfoldable pub my_timer_func : Bool → Light → Light
my_timer_func switch s = record s {
  led = switch;
  count = (s.count + 1) % 2 ^ 32;
  expires = some ((s.jiffies + s.delay_jiffies) % 2 ^ 32);
}

abbrev pub ch7_mod_init : ℕ → ℕ → Light
ch7_mod_init half_second jiffies = record {
  expires = some ((jiffies + half_second) % 2 ^ 32);
  delay_jiffies = half_second;
  count = 0;
  led = false;
  jiffies = jiffies;
  gpios = 12 ∷ 5 ∷ [];
}

-- What the kernel does when a jiffy begins; a timer is armed for less than 2 ^ 31 jiffies ahead.
abbrev pub expire : Bool → Option ℕ → Light → Light
expire switch none s = s
expire switch (some t) s =
    if t == s.jiffies then my_timer_func switch (record s { expires = none }) else s

unfoldable pub tick : Bool → Light → Light
tick switch s = expire switch s.expires (record s { jiffies = (s.jiffies + 1) % 2 ^ 32 })

-- The jiffies that follow, each with the switch in it.
unfoldable pub run : List Bool → Light → Light
run [] s = s
run (switch ∷ later) s = run later (tick switch s)

-- `ch7_mod_exit` without the handler in the middle of a run: `del_timer` does not wait for it.
abbrev pub ch7_mod_exit : Light → Light
ch7_mod_exit s = record s {
  expires = none;
  led = false;
  gpios = gpio_free 5 (gpio_free 12 s.gpios);
}
