-- ===== src/SimpleMotor/Degrees.antt =====
-- sensor_and_actuator/challenge10/ch10_201711395.c: the motor of simple_motor.c, turned by degrees.
use embedded_system_software.Base.{
  ℕ, ◌*◌, ◌/◌, ◌%◌, ◌^◌, ◌<◌, ◌≡◌, refl, inl, inr, Option, none, some, List, [], ◌∷◌, ◌++◌, arith,
  ltb, ◌==◌, if◌then◌else◌, Bool-cases, ◌>>=◌,
}
use embedded_system_software.Actuator.{gpio_free, Action, mdelay}
use embedded_system_software.StepMotor.{steps, setstep, released}
use embedded_system_software.SimpleMotor.{pass, passes, down_from, up_from}
use embedded_system_software.SimpleMotor.Turns.{down_from-pass, passes-none}

-- The passes for a number of degrees, an `int` that is not negative; an `int` counts them, and below 0 there are none.
abbrev pub rounds_of : ℕ → ℕ
rounds_of degree = let n = degree / 45 * 64 % 2 ^ 32 in if ltb n (2 ^ 31) then n else 0

unfoldable pub backward_degrees : ℕ → ℕ → Option (List Action)
backward_degrees degree delay = do
  acts ← passes (rounds_of degree) (pass delay (down_from steps))
  some (acts ++ setstep released)

unfoldable pub forward_degrees : ℕ → ℕ → Option (List Action)
forward_degrees degree delay = do
  acts ← passes (rounds_of degree) (pass delay (up_from 0 steps))
  some (acts ++ setstep released)

unfoldable pub move_degree : ℕ → ℕ → ℕ → Option (List Action)
move_degree degree delay direction =
    if direction == 0 then forward_degrees degree delay else backward_degrees degree delay

-- `ch10_init`: what the pins do, and the pins that stay requested.
unfoldable pub ch10_init : Option (List Action × List ℕ)
ch10_init = do
  a ← move_degree 90 3000 0
  b ← move_degree 45 3000 0
  c ← move_degree 45 3000 0
  d ← move_degree 180 3000 1
  some (
    (a ++ (mdelay 1200 ∷ (b ++ (mdelay 1200 ∷ (c ++ (mdelay 1200 ∷ d)))))),
    6 ∷ 13 ∷ 19 ∷ 26 ∷ [],
  )

-- `ch10_exit`: the pins that stay requested.
abbrev pub ch10_exit : List ℕ → List ℕ
ch10_exit pins = gpio_free 26 (gpio_free 19 (gpio_free 13 (gpio_free 6 pins)))

-- Below 45 * 2 ^ 25 degrees, a move back of less than 45 degrees leaves the motor alone but for the release of the coils; one of 45 degrees or more
-- reads past the end of the arrays.
pub backward_degrees_lem :
    (degree delay : ℕ)
    → degree < 45 * 2 ^ 25
    → backward_degrees degree delay ≡ (if ltb degree 45 then some (setstep released) else none)
unfolding backward_degrees passes
backward_degrees_lem degree delay fits =
    rw (down_from-pass delay) (elim (Bool-cases (ltb degree 45)) [
      | inl small ↦ let e : rounds_of degree ≡ 0 = ground arith in rw (small, e, passes) refl
      | inr large ↦ rw (large, passes-none (rounds_of degree) (ground arith)) refl
    ])
