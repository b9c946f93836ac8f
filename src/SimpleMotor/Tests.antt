-- ===== src/SimpleMotor/Tests.antt =====
-- A run of the motor: one round of three milliseconds a step, as the module makes it.
use embedded_system_software.Base.{◌*◌, ◌^◌, ◌≡◌, refl, none, some, List, arith}
use embedded_system_software.Actuator.{Action, duration}
use embedded_system_software.SimpleMotor.{forward, backward, oneround, passes}
use embedded_system_software.StepMotor.{setstep, released}
use embedded_system_software.SimpleMotor.Turns.{forward-backward}

forward-backward_example :
    ((acts : List Action) × (forward 1 3000 ≡ some acts)
      × (duration acts ≡ oneround * 1 * (8 * 3000)))
    × (backward 1 3000 ≡ none)
forward-backward_example = forward-backward 1 3000 (omega arith) (omega arith)

-- With 2 ^ 23 rounds the product is 0, and the motor does not move.
forward-wraps : forward (2 ^ 23) 3000 ≡ some (setstep released)
unfolding forward passes
forward-wraps = refl
