-- ===== src/StepMotor.antt =====
-- assignment2/src/driver/actuator/step_motor/step_motor.c: the half-steps that open and close the lock.
pub mod Motion
use embedded_system_software.Base.{
  refl, ◌≡◌, ℕ, zero, suc, ◌+◌, List, [], ◌∷◌, ◌++◌, if◌then◌else◌, get_or, ℤ, is_negative, ok_code,
  minus_one,
}
use embedded_system_software.Actuator.{gpio_free, Action, write, mdelay, repeat}

-- The levels of the four coils in one half-step.
pub record Coils : Type 0 where
  pub blue : ℕ
  pub pink : ℕ
  pub yellow : ℕ
  pub orange : ℕ

abbrev pub coils : ℕ → ℕ → ℕ → ℕ → Coils
coils b p y o = record { blue = b; pink = p; yellow = y; orange = o }

-- The four arrays.
abbrev pub blues : List ℕ
blues = 1 ∷ 1 ∷ 0 ∷ 0 ∷ 0 ∷ 0 ∷ 0 ∷ 1 ∷ []

abbrev pub pinks : List ℕ
pinks = 0 ∷ 1 ∷ 1 ∷ 1 ∷ 0 ∷ 0 ∷ 0 ∷ 0 ∷ []

abbrev pub yellows : List ℕ
yellows = 0 ∷ 0 ∷ 0 ∷ 1 ∷ 1 ∷ 1 ∷ 0 ∷ 0 ∷ []

abbrev pub oranges : List ℕ
oranges = 0 ∷ 0 ∷ 0 ∷ 0 ∷ 0 ∷ 1 ∷ 1 ∷ 1 ∷ []

-- Column `j` of the arrays; both loops stay below 8.
abbrev pub column : ℕ → Coils
column j = coils (get_or blues j 0) (get_or pinks j 0) (get_or yellows j 0) (get_or oranges j 0)

-- The pins PIN1 to PIN4 are 6, 13, 19 and 26.
abbrev pub setstep : Coils → List Action
setstep c = write 6 c.blue ∷ write 13 c.pink ∷ write 19 c.yellow ∷ write 26 c.orange ∷ []

-- `for (j = 0; j < n; j++)`: the columns from `j` on, `n` of them.
unfoldable pub ascending : ℕ → ℕ → List Coils
ascending j zero = []
ascending j (suc n) = column j ∷ ascending (j + 1) n

-- `for (j = n - 1; j >= 0; j--)`
unfoldable pub descending : ℕ → List Coils
descending zero = []
descending (suc n) = column n ∷ descending n

abbrev pub degree : ℕ
degree = 128

abbrev pub steps : ℕ
steps = 8

-- The half-steps of the two loops, and the writes and delays of each.
unfoldable pub opening : List Coils
opening = repeat degree (ascending 0 steps)

unfoldable pub closing : List Coils
closing = repeat degree (descending steps)

unfoldable pub drive : List Coils → List Action
drive [] = []
drive (c ∷ cs) = setstep c ++ (mdelay 3 ∷ drive cs)

abbrev pub released : Coils
released = coils 0 0 0 0

unfoldable pub step_motor_open : List Action
step_motor_open = drive opening ++ setstep released

unfoldable pub step_motor_close : List Action
step_motor_close = drive closing ++ setstep released

pub data Command : Type 0 where
  open_lock close_lock unknown : Command

unfoldable pub step_motor_ioctl : Command → ℤ × List Action
step_motor_ioctl open_lock = (ok_code, step_motor_open)
step_motor_ioctl close_lock = (ok_code, step_motor_close)
step_motor_ioctl unknown = (ok_code, [])

-- `step_motor_init` with what `cdev_add` returns, and the pins that stay requested.
unfoldable pub step_motor_init : ℤ → ℤ × List ℕ
step_motor_init added = (if is_negative added then minus_one else ok_code, 6 ∷ 13 ∷ 19 ∷ 26 ∷ [])

-- `step_motor_exit`: the pins that stay requested.
abbrev pub step_motor_exit : List ℕ → List ℕ
step_motor_exit pins = gpio_free 26 (gpio_free 19 (gpio_free 13 (gpio_free 6 pins)))

-- Unloading gives back the pins that loading requested.
step_motor_exit-step_motor_init : (added : ℤ) → step_motor_exit (step_motor_init added).1 ≡ []
unfolding step_motor_init
step_motor_exit-step_motor_init added = refl
