-- ===== src/Coffer/Devices.antt =====
-- assignment2/src/lib: the functions through which the coffer's application calls the drivers. Each opens the device and
-- makes one `ioctl`; those of the switch close it again, those of the speaker and the step motor do not.
use mathlib.Core.Option
use embedded_system_software.Base.{
  ℕ, ◌+◌, ◌-◌, ◌%◌, ◌^◌, ◌≤◌, ◌≡◌, inl, inr, false, Option, some, List, [], arith, if◌then◌else◌,
  Option-cases, ℤ, pos, negsuc, is_negative, minus_one,
}
use embedded_system_software.Libc.{Libc}
use embedded_system_software.Switch
use embedded_system_software.Switch.{
  Request, switch_ioctl, queue_get, queue_close, recv_switch, recv_ultrasonic,
}
use embedded_system_software.Speaker.{speaker_ioctl}
use embedded_system_software.Speaker
use embedded_system_software.StepMotor.{step_motor_ioctl}
use embedded_system_software.StepMotor
use embedded_system_software.Actuator.{Action}

-- The descriptors that a process has opened and closed.
pub record Files : Type 0 where
  pub opened : ℕ
  pub closed : ℕ

-- `open` returned `fd`.
abbrev pub after_open : ℤ → Files → Files
after_open fd f = if is_negative fd then f else record f { opened = f.opened + 1 }

abbrev pub after_close : Files → Files
after_close f = record f { closed = f.closed + 1 }

-- An `int` argument of `ioctl` as the driver's 32-bit `unsigned long`.
abbrev pub as_arg : ℤ → ℕ
as_arg (pos n) = n % 2 ^ 32
as_arg (negsuc n) = 2 ^ 32 - 1 - n

module _ (c : Libc) where
  -- The body that the four functions of switch_lib.c share; `command` is the request that they make of the key.
  unfoldable pub switch_call :
      (ℕ → Request) → ℤ → ℤ → Switch.Driver → Files → Option (ℤ × Switch.Driver × Files)
  switch_call command fd key s f =
      if is_negative fd
      then some (minus_one, s, f)
      else Option.map (λ t. (c.result t.0, t.1, after_close (after_open fd f)))
          (switch_ioctl s (command (as_arg key)))

  unfoldable pub switch_queue_get :
      ℤ → ℤ → Switch.Driver → Files → Option (ℤ × Switch.Driver × Files)
  unfolding switch_call
  switch_queue_get = switch_call queue_get

  unfoldable pub switch_queue_close :
      ℤ → ℤ → Switch.Driver → Files → Option (ℤ × Switch.Driver × Files)
  unfolding switch_call
  switch_queue_close = switch_call queue_close

  unfoldable pub switch_recv : ℤ → ℤ → Switch.Driver → Files → Option (ℤ × Switch.Driver × Files)
  unfolding switch_call
  switch_recv = switch_call recv_switch

  unfoldable pub ultrasonic_recv :
      ℤ → ℤ → Switch.Driver → Files → Option (ℤ × Switch.Driver × Files)
  unfolding switch_call
  ultrasonic_recv = switch_call recv_ultrasonic

  -- speaker_lib.c and step_motor_lib.c: the result, what the driver does, and the descriptors.
  unfoldable pub speaker_call : Speaker.Command → ℤ → Files → ℤ × List Action × Files
  speaker_call command fd f =
      if is_negative fd
      then (minus_one, [], f)
      else (c.result (speaker_ioctl command).0, (speaker_ioctl command).1, after_open fd f)

  unfoldable pub step_motor_call : StepMotor.Command → ℤ → Files → ℤ × List Action × Files
  step_motor_call command fd f =
      if is_negative fd
      then (minus_one, [], f)
      else (c.result (step_motor_ioctl command).0, (step_motor_ioctl command).1, after_open fd f)

abbrev pub balance : Files → ℕ
balance f = f.opened - f.closed

-- The functions of the switch close what they open, whatever the driver answers.
switch_call-balance :
    (c : Libc) (command : ℕ → Request) (fd key : ℤ) (s t : Switch.Driver) (f g : Files) (ret : ℤ)
    → switch_call c command fd key s f ≡ some (ret, t, g)
    → balance g ≡ balance f
unfolding switch_call
switch_call-balance c command fd key s t f g ret e =
    elim (Option-cases (switch_ioctl s (command (as_arg key)))) [
      | inl fault ↦ ground arith
      | inr (r, done) ↦ ground arith
    ]

-- Each call of the speaker or the motor whose `open` succeeds keeps one descriptor for good.
actuators-leak :
    (c : Libc) (sound : Speaker.Command) (turn : StepMotor.Command) (fd fd' : ℤ) (f : Files)
    → f.closed ≤ f.opened
    → is_negative fd ≡ false
    → is_negative fd' ≡ false
    → balance (step_motor_call c turn fd' (speaker_call c sound fd f).2).2 ≡ balance f + 2
unfolding speaker_call step_motor_call
actuators-leak c sound turn fd fd' f h o o' = ground arith
