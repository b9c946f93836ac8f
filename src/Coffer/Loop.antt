-- ===== src/Coffer/Loop.antt =====
-- The main loop of the coffer: it uses up replies in every round, and the lock is never driven the same way twice.
use mathlib.Core.Option
use mathlib.Core.Option.{some-injective}
use embedded_system_software.Base.{
  ℕ, zero, suc, ◌+◌, ◌≤◌, ◌<◌, ◌≡◌, refl, ◌∙◌, inl, inr, Bool, true, false, not, ◌&&◌, ◌||◌, Option,
  none, some, List, [], ◌∷◌, ◌++◌, arith, leb, ◌==◌, Bool-cases, Option-cases, length, get_or, All,
  pos, ltb_ℤ, is_negative,
}
use embedded_system_software.Coffer.{
  Reply, Action, speaker_correct, speaker_incorrect, step_motor_open, step_motor_close, my_password,
  differs, Attempt, read_presses, Coffer, verdict, wait_for_press, round, main_loop,
}

-- An attempt reads between one and six replies, and counts five presses at most.
abbrev IsAttempt : List Reply → ℕ → Option Attempt → Type 0
IsAttempt rs count none = Unit {0}
IsAttempt rs count (some a) =
    (length a.later < length rs) × (length rs + count ≤ length a.later + 6) × (a.count ≤ 5)

longer :
    (r : Reply) (rs : List Reply) (count : ℕ) (o : Option Attempt)
    → IsAttempt rs (count + 1) o
    → IsAttempt (r ∷ rs) count o
longer r rs count none h = tt
longer r rs count (some a) h = (omega (arith, h), omega (arith, h), h.2)

read_presses-IsAttempt :
    (rs : List Reply) (count : ℕ) (incorrect : Bool)
    → count ≤ 5
    → IsAttempt rs count (read_presses rs count incorrect)
unfolding read_presses
read_presses-IsAttempt [] count incorrect h = tt
read_presses-IsAttempt (r ∷ rs) count incorrect h =
    let wrong = differs (get_or my_password count (0, 0)) r || incorrect in
    elim (Bool-cases (is_negative r.ret || leb 5 count)) [
      | inl stop ↦ rw stop (omega arith, omega arith, h)
      | inr on ↦ rw on (
          longer r rs count (read_presses rs (count + 1) wrong)
            (read_presses-IsAttempt rs (count + 1) wrong (ground arith)))
    ]

-- The loop of an attempt reads at most six replies, and at least one, whatever they are; more presses are left to the next attempt.
read_presses-bound :
    (rs : List Reply) (a : Attempt)
    → read_presses rs 0 false ≡ some a
    → (length a.later < length rs) × (length rs ≤ length a.later + 6) × (a.count ≤ 5)
read_presses-bound rs a e =
    let b = rw e at (read_presses-IsAttempt rs 0 false (omega arith)) in omega (arith, b)

-- What the actions make of the lock; `none` if the motor is driven to where it is.
abbrev pub lock_after : Bool → List Action → Option Bool
lock_after l [] = some l
lock_after l (speaker_correct ∷ acts) = lock_after l acts
lock_after l (speaker_incorrect ∷ acts) = lock_after l acts
lock_after false (step_motor_open ∷ acts) = lock_after true acts
lock_after true (step_motor_open ∷ acts) = none
lock_after true (step_motor_close ∷ acts) = lock_after false acts
lock_after false (step_motor_close ∷ acts) = none

-- What one round gives: it uses up replies, and its actions bring the lock to where the flag says.
abbrev IsRound : Bool → List Reply → Option (List Action × Coffer) → Type 0
IsRound l rs none = Unit {0}
IsRound l rs (some (acts, c)) =
    (length c.replies < length rs) × (lock_after l acts ≡ some c.is_open)

later-IsRound :
    (l : Bool) (r : Reply) (rs : List Reply) (o : Option (List Action × Coffer))
    → IsRound l rs o
    → IsRound l (r ∷ rs) o
later-IsRound l r rs none h = tt
later-IsRound l r rs (some (acts, c)) h = (omega (arith, h.0), h.1)

wait_for_press-IsRound : (rs : List Reply) → IsRound true rs (wait_for_press rs)
unfolding wait_for_press
wait_for_press-IsRound [] = tt
wait_for_press-IsRound (r ∷ rs) = elim (Bool-cases (ltb_ℤ (pos 0) r.ret)) [
  | inl press ↦ rw press (omega arith, refl)
  | inr quiet ↦ rw quiet (later-IsRound true r rs (wait_for_press rs) (wait_for_press-IsRound rs))
]

verdict-IsRound :
    (rs : List Reply) (o : Option Attempt)
    → IsAttempt rs 0 o
    → IsRound false rs (Option.map verdict o)
verdict-IsRound rs none h = tt
verdict-IsRound rs (some a) h = elim (Bool-cases (not a.incorrect && a.count == 5)) [
  | inl right ↦ rw right (h.0, refl)
  | inr wrong ↦ rw wrong (elim (Bool-cases (a.count == 0)) [
    | inl nothing ↦ rw nothing (h.0, refl)
    | inr some_press ↦ rw some_press (h.0, refl)
  ])
]

round-IsRound :
    (l : Bool) (rs : List Reply) → IsRound l rs (round (record { is_open = l; replies = rs }))
unfolding round
round-IsRound true rs = wait_for_press-IsRound rs
round-IsRound false rs =
    verdict-IsRound rs (read_presses rs 0 false) (read_presses-IsAttempt rs 0 false (omega arith))

lock_after-append :
    (l m : Bool) (xs ys : List Action)
    → lock_after l xs ≡ some m
    → lock_after l (xs ++ ys) ≡ lock_after m ys
lock_after-append l m [] ys h = ground arith
lock_after-append l m (speaker_correct ∷ xs) ys h = lock_after-append l m xs ys h
lock_after-append l m (speaker_incorrect ∷ xs) ys h = lock_after-append l m xs ys h
lock_after-append false m (step_motor_open ∷ xs) ys h = lock_after-append true m xs ys h
lock_after-append true m (step_motor_open ∷ xs) ys h = cc
lock_after-append true m (step_motor_close ∷ xs) ys h = lock_after-append false m xs ys h
lock_after-append false m (step_motor_close ∷ xs) ys h = cc

-- With more fuel than replies the main loop comes to the end of the replies, and the motor opens and closes in turns: it
-- never drives the lock to where it is, and at the end the lock is where `flag` says.
pub main_loop-alternates :
    (fuel : ℕ) (c : Coffer)
    → length c.replies < fuel
    → let (done, acts, last) = main_loop fuel c in
      (done ≡ true) × (lock_after c.is_open acts ≡ some last.is_open)
unfolding main_loop
main_loop-alternates zero c h = absurd (omega arith)
main_loop-alternates (suc fuel) c h = elim (Option-cases (round c)) [
  | inl e ↦ rw (e, main_loop) (refl, refl)
  | inr ((acts, c'), e) ↦
      let b = rw e at (round-IsRound c.is_open c.replies) in
      let rest = main_loop-alternates fuel c' (omega (arith, b.0)) in
      rw (e, main_loop)
        (rest.0, lock_after-append c.is_open c'.is_open acts (main_loop fuel c').1 b.1 ∙ rest.1)
]

-- An open coffer closes on the next press and on nothing else: replies that are no press are passed over.
round-closes :
    (idle : List Reply) (r : Reply) (rs : List Reply)
    → All (λ x. ltb_ℤ (pos 0) x.ret ≡ false) idle
    → ltb_ℤ (pos 0) r.ret ≡ true
    → round (record { is_open = true; replies = idle ++ (r ∷ rs) })
      ≡ some (step_motor_close ∷ [], record { is_open = false; replies = rs })
unfolding round wait_for_press
round-closes [] r rs quiet press = rw press refl
round-closes (x ∷ idle) r rs quiet press = rw quiet.0 (round-closes idle r rs quiet.1 press)
