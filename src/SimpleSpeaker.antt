-- ===== src/SimpleSpeaker.antt =====
-- sensor_and_actuator/exercise2/simple_speaker.c, a module that plays a scale while it is loaded, and gpio/exercise1/simple_led.c,
-- one that lights a lamp as long as it is there.
mod Tests
use embedded_system_software.Base.{
  ℕ, zero, suc, ◌+◌, ◌-◌, ◌*◌, ◌/◌, ◌%◌, ◌^◌, ◌≤◌, ◌<◌, bit_and, bit_or, ◌≡◌, refl, sym, ap, subst,
  ◌∙◌, ◌≢◌, ◌↔◌, ◌⊎◌, inl, inr, Bool, true, false, not, ◌&&◌, ◌||◌, Option, none, some, List, [],
  ◌∷◌, ◌++◌, map, arith, ltb, leb, ◌==◌, if◌then◌else◌, ltb→lt, lt→ltb, le→ltb_false, ==_iff,
  ==_refl, Bool-cases, Option-cases, ◌>>=◌, length, get_elem?, get_or, set, total-set, take, drop,
  replicate, overlay, All, total, total-put_at, length-append, length-set, get_elem?-set_self,
  get_elem?-set_ne, get_elem?-lt, get_elem?-none, set-set, lt_of_get_elem?, length-overlay,
  length-take, length-drop, length-replicate, take-overlay, take_all, append-nil, overlay-append,
  append_assoc, All-append, All-get_elem?, All-set, ℤ, pos, negsuc, ltb_ℤ, eqb_ℤ, is_negative,
  ok_code, minus_one, minus_two, as_int, as_int-small, at, put_at, length-put_at, at-put_at_self,
  at-put_at_ne, put_at-put_at, All-put_at, All-at, has_flag, strlen, update, update_self, update_ne,
  IsSome, IsSome-value, update-none, some-ne-none,
}
use embedded_system_software.Actuator.{
  gpio_free, Action, write, udelay, mdelay, repeat, duration, duration-append, duration-repeat,
  level_after, level_after-append,
}

abbrev speaker : ℕ
speaker = 12

-- A hundred periods of the wave.
unfoldable pub play : ℕ → List Action
play note = repeat 100 (write speaker 1 ∷ udelay note ∷ write speaker 0 ∷ udelay note ∷ [])

unfoldable pub notes : List ℕ
notes = 1911 ∷ 1702 ∷ 1516 ∷ 1431 ∷ 1275 ∷ 1136 ∷ 1012 ∷ []

-- The loop of `simple_speaker_init`.
unfoldable pub play_notes : List ℕ → List Action
play_notes [] = []
play_notes (n ∷ ns) = play n ++ (mdelay 500 ∷ play_notes ns)

-- What it does with its pins, and the pins that stay requested.
unfoldable pub simple_speaker_init : List Action × List ℕ
simple_speaker_init = (play_notes notes ++ (write speaker 0 ∷ []), speaker ∷ [])

abbrev pub simple_speaker_exit : List ℕ → List Action × List ℕ
simple_speaker_exit pins = (write speaker 0 ∷ [], gpio_free speaker pins)

abbrev pub simple_led_init : List Action × List ℕ
simple_led_init = (write 4 1 ∷ [], 4 ∷ [])

abbrev pub simple_led_exit : List ℕ → List Action × List ℕ
simple_led_exit pins = (write 4 0 ∷ [], gpio_free 4 pins)

duration-play : (note : ℕ) → duration (play note) ≡ 200 * note
unfolding play duration
duration-play note = omega (
  arith,
  duration-repeat 100 (write speaker 1 ∷ udelay note ∷ write speaker 0 ∷ udelay note ∷ []),
)

abbrev total_time : List ℕ → ℕ
total_time [] = 0
total_time (n ∷ ns) = 200 * n + 500000 + total_time ns

duration-note :
    (n : ℕ) (acts : List Action)
    → duration (play n ++ (mdelay 500 ∷ acts)) ≡ 200 * n + 500000 + duration acts
unfolding duration
duration-note n acts = duration-append (play n) (mdelay 500 ∷ acts) ∙ omega (arith, duration-play n)

duration-play_notes : (ns : List ℕ) → duration (play_notes ns) ≡ total_time ns
unfolding play_notes duration
duration-play_notes [] = refl
duration-play_notes (n ∷ ns) =
    duration-note n (play_notes ns) ∙ ap (λ t. 200 * n + 500000 + t) (duration-play_notes ns)

-- The loading takes 5496600 microseconds of waits.
duration-simple_speaker_init : duration (simple_speaker_init).0 ≡ 5496600
unfolding simple_speaker_init notes duration
duration-simple_speaker_init =
    omega
      (arith, duration-append (play_notes notes) (write speaker 0 ∷ []), duration-play_notes notes)
