-- ===== src/Coffer.antt =====
-- assignment2/src/app/coffer_app.c: the coffer opens on five presses of the right buttons, each with the hand near or
-- far as the password says, and closes on the next press.
pub mod Password
pub mod Devices
pub mod Loop
pub mod Live
pub mod Presses
mod Tests
use mathlib.Core.Option
use embedded_system_software.Base.{
  ℕ, zero, suc, ◌+◌, Bool, true, false, not, ◌&&◌, ◌||◌, Option, none, some, List, [], ◌∷◌, ◌++◌,
  leb, ◌==◌, if◌then◌else◌, get_or, ℤ, pos, ltb_ℤ, eqb_ℤ, is_negative,
}

-- What `switch_recv` and `ultrasonic_recv` returned in one round of a loop.
pub record Reply : Type 0 where
  pub ret : ℤ
  pub distance : ℤ

-- What the application makes the actuators do.
pub data Action : Type 0 where
  speaker_correct speaker_incorrect step_motor_open step_motor_close : Action

-- `my_password`
abbrev pub my_password : List (ℕ × ℕ)
my_password = (1, 0) ∷ (2, 1) ∷ (3, 0) ∷ (3, 1) ∷ (1, 0) ∷ []

-- 1 if the distance is 15 or more, and 0 else.
abbrev pub is_far : ℤ → ℕ
is_far d = if ltb_ℤ d (pos 15) then 0 else 1

-- One of the two tests fails.
abbrev pub differs : ℕ × ℕ → Reply → Bool
differs (b, far) r = not (eqb_ℤ (pos b) r.ret) || not (far == is_far r.distance)

-- `count`, `incorrect` and the replies that are still to come after the loop.
pub record Attempt : Type 0 where
  pub count : ℕ
  pub incorrect : Bool
  pub later : List Reply

-- The loop that reads the presses. It waits for ever (`none`) where the replies end before its test does. The row of
-- the password is read only below 5.
pub read_presses : List Reply → ℕ → Bool → Option Attempt
read_presses [] count incorrect = none
read_presses (r ∷ rs) count incorrect =
    let rest =
      read_presses rs (count + 1) (differs (get_or my_password count (0, 0)) r || incorrect) in
    if is_negative r.ret || leb 5 count
    then some (record { count = count; incorrect = incorrect; later = rs })
    else rest

-- The state of the main loop between two rounds: `flag` and the replies to come.
pub record Coffer : Type 0 where
  pub is_open : Bool
  pub replies : List Reply

abbrev pub verdict : Attempt → List Action × Coffer
verdict a =
    if not a.incorrect && a.count == 5
    then (speaker_correct ∷ step_motor_open ∷ [], record { is_open = true; replies = a.later })
    else if not (a.count == 0)
    then (speaker_incorrect ∷ [], record { is_open = false; replies = a.later })
    else ([], record { is_open = false; replies = a.later })

-- The loop that waits for a press while the coffer is open.
pub wait_for_press : List Reply → Option (List Action × Coffer)
wait_for_press [] = none
wait_for_press (r ∷ rs) =
    let rest = wait_for_press rs in
    if ltb_ℤ (pos 0) r.ret
    then some (step_motor_close ∷ [], record { is_open = false; replies = rs })
    else rest

-- One round of the main loop.
unfoldable pub round : Coffer → Option (List Action × Coffer)
unfolding read_presses wait_for_press
round c =
    if c.is_open
    then wait_for_press c.replies
    else Option.map verdict (read_presses c.replies 0 false)

-- The main loop, as long as replies come. The first part of the result tells whether the fuel lasted.
unfoldable pub main_loop : ℕ → Coffer → Bool × List Action × Coffer
main_loop zero c = (false, [], c)
main_loop (suc fuel) c = elim (round c) [
  | none ↦ (true, [], c)
  | some (acts, c') ↦ let (done, more, last) = main_loop fuel c' in (done, acts ++ more, last)
]
