-- ===== src/SimpleMotor.antt =====
-- sensor_and_actuator/exercise3/simple_motor.c: a step motor that turns forward and back. `none` is a read past the end
-- of an array.
pub mod Turns
pub mod Degrees
mod Tests
use mathlib.Core.Option
use embedded_system_software.Base.{
  ℕ, zero, suc, ◌+◌, ◌-◌, ◌*◌, ◌/◌, ◌%◌, ◌^◌, ◌≤◌, ◌<◌, bit_and, bit_or, ◌≡◌, refl, sym, ap, subst,
  ◌∙◌, ◌≢◌, ◌↔◌, ◌⊎◌, inl, inr, Bool, true, false, not, ◌&&◌, ◌||◌, Option, none, some, List, [],
  ◌∷◌, ◌++◌, map, arith, ltb, leb, ◌==◌, if◌then◌else◌, ltb→lt, lt→ltb, le→ltb_false, ==_iff,
  ==_refl, Bool-cases, Option-cases, ◌>>=◌, length, get_elem?, get_or, set, total-set, take, drop,
  replicate, overlay, All, total, total-put_at, length-append, length-set, get_elem?-set_self,
  get_elem?-set_ne, get_elem?-lt, get_elem?-none, set-set, lt_of_get_elem?, length-overlay,
  length-take, length-drop, length-replicate, take-overlay, All-append, All-get_elem?, All-set, ℤ,
  pos, negsuc, ltb_ℤ, eqb_ℤ, is_negative, ok_code, minus_one, minus_two, as_int, as_int-small, at,
  put_at, length-put_at, at-put_at_self, at-put_at_ne, put_at-put_at, All-put_at, All-at, has_flag,
  strlen,
}
use embedded_system_software.Actuator.{gpio_free, Action, udelay, mdelay}
use embedded_system_software.StepMotor.{
  Coils, coils, setstep, blues, pinks, yellows, oranges, steps, released,
}

abbrev pub oneround : ℕ
oneround = 512

-- The entries of the four arrays at `j`. They hold what those of the coffer's motor hold.
abbrev pub entries : ℕ → Option Coils
entries j = do
  b ← get_elem? blues j
  p ← get_elem? pinks j
  y ← get_elem? yellows j
  o ← get_elem? oranges j
  some (coils b p y o)

-- One pass of an inner loop over the given indices.
unfoldable pub pass : ℕ → List ℕ → Option (List Action)
pass delay [] = some []
pass delay (j ∷ js) = do
  c ← entries j
  rest ← pass delay js
  some (setstep c ++ (udelay delay ∷ rest))

-- The outer loop.
unfoldable pub passes : ℕ → Option (List Action) → Option (List Action)
passes zero body = some []
passes (suc n) body = do first ← body; rest ← passes n body; some (first ++ rest)

-- `j = STEPS; j > 0; j--`
unfoldable pub down_from : ℕ → List ℕ
down_from zero = []
down_from (suc n) = suc n ∷ down_from n

-- `j = 0; j < STEPS; j++`, as `n` indices from `j` on.
unfoldable pub up_from : ℕ → ℕ → List ℕ
up_from j zero = []
up_from j (suc n) = j ∷ up_from (j + 1) n

-- The passes of the outer loops: `ONEROUND * round` is an `int`, which goes round at 2 ^ 32; no pass when it is negative.
abbrev pub turns : ℕ → ℕ
turns round = let n = oneround * round % 2 ^ 32 in if ltb n (2 ^ 31) then n else 0

-- `round` is the bit pattern of an `int`.
unfoldable pub backward : ℕ → ℕ → Option (List Action)
backward round delay = do
  acts ← passes (turns round) (pass delay (down_from steps))
  some (acts ++ setstep released)

unfoldable pub forward : ℕ → ℕ → Option (List Action)
forward round delay = do
  acts ← passes (turns round) (pass delay (up_from 0 steps))
  some (acts ++ setstep released)

-- `simple_motor_init`: what the pins do, and the pins that stay requested.
unfoldable pub simple_motor_init : Option (List Action × List ℕ)
simple_motor_init = do
  there ← forward 1 3000
  back ← backward 1 1500
  some ((there ++ (mdelay 3000 ∷ back)), 6 ∷ 13 ∷ 19 ∷ 26 ∷ [])

-- `simple_motor_exit`: the pins that stay requested.
abbrev pub simple_motor_exit : List ℕ → List ℕ
simple_motor_exit pins = gpio_free 26 (gpio_free 19 (gpio_free 13 (gpio_free 6 pins)))
