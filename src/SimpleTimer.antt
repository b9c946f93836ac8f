-- ===== src/SimpleTimer.antt =====
-- gpio/exercise3/simple_timer.c: a timer that prints a number that goes up and arms itself again.
pub mod Periods
mod Tests
use embedded_system_software.Base.{
  ℕ, zero, suc, ◌+◌, ◌-◌, ◌*◌, ◌/◌, ◌%◌, ◌^◌, ◌≤◌, ◌<◌, bit_and, bit_or, ◌≡◌, refl, sym, ap, subst,
  ◌∙◌, ◌≢◌, ◌↔◌, ◌⊎◌, inl, inr, Bool, true, false, not, ◌&&◌, ◌||◌, Option, none, some, List, [],
  ◌∷◌, ◌++◌, map, arith, ltb, leb, ◌==◌, if◌then◌else◌, ltb→lt, lt→ltb, le→ltb_false, ==_iff,
  ==_refl, Bool-cases, Option-cases, ◌>>=◌, length, get_elem?, get_or, set, total-set, take, drop,
  replicate, overlay, All, total, total-put_at, length-append, length-set, get_elem?-set_self,
  get_elem?-set_ne, get_elem?-lt, get_elem?-none, set-set, lt_of_get_elem?, length-overlay,
  length-take, length-drop, length-replicate, take-overlay, take_all, append-nil, overlay-append,
  append_assoc, All-append, All-get_elem?, All-set, ℤ, pos, negsuc, ltb_ℤ, eqb_ℤ, is_negative,
  ok_code, minus_one, minus_two, as_int, as_int-small, at, put_at, length-put_at, at-put_at_self,
  at-put_at_ne, put_at-put_at, All-put_at, All-at, has_flag, strlen, update, update_self, update_ne,
  IsSome, IsSome-value, update-none, some-ne-none,
}

-- `my_timer`: when it expires, if it is pending, the delay and the number; then the time, and what has been printed: the time and the number.
-- Jiffies are an `unsigned long` of 32 bits, as on the ARM it was built for.
pub record MyTimer : Type 0 where
  pub expires : Option ℕ
  pub delay_jiffies : ℕ
  pub my_data : ℕ
  pub jiffies : ℕ
  pub printed : List (ℕ × ℕ)

unfoldable pub my_timer_func : MyTimer → MyTimer
my_timer_func s = record s {
  printed = s.printed ++ ((s.jiffies, s.my_data) ∷ []);
  my_data = (s.my_data + 1) % 2 ^ 32;
  expires = some ((s.jiffies + s.delay_jiffies) % 2 ^ 32);
}

-- `two_seconds` is what `msecs_to_jiffies(2000)` gives.
abbrev pub simple_timer_init : ℕ → ℕ → MyTimer
simple_timer_init two_seconds jiffies = record {
  expires = some ((jiffies + two_seconds) % 2 ^ 32);
  delay_jiffies = two_seconds;
  my_data = 100;
  jiffies = jiffies;
  printed = [];
}

-- What the kernel does when a jiffy begins; a timer is armed for less than 2 ^ 31 jiffies ahead.
abbrev pub expire : Option ℕ → MyTimer → MyTimer
expire none s = s
expire (some t) s = if t == s.jiffies then my_timer_func (record s { expires = none }) else s

unfoldable pub tick : MyTimer → MyTimer
tick s = expire s.expires (record s { jiffies = (s.jiffies + 1) % 2 ^ 32 })

-- As many jiffies.
unfoldable pub run : ℕ → MyTimer → MyTimer
run zero s = s
run (suc n) s = run n (tick s)

-- `simple_timer_exit` without the handler in the middle of a run: `del_timer` does not wait for it.
abbrev pub simple_timer_exit : MyTimer → MyTimer
simple_timer_exit s = record s { expires = none }
