-- ===== src/SimpleMotor/Turns.antt =====
-- The way forward stays in the arrays, and the way back does not.
use embedded_system_software.Base.{
  ℕ, zero, suc, ◌*◌, ◌^◌, ◌<◌, ◌≡◌, refl, ap, ◌∙◌, none, some, List, [], ◌++◌, arith,
}
use embedded_system_software.Actuator.{Action, duration, duration-append}
use embedded_system_software.StepMotor.{steps, setstep, released}
use embedded_system_software.SimpleMotor.{
  pass, passes, down_from, up_from, forward, backward, oneround, turns,
}

pub down_from-pass : (delay : ℕ) → pass delay (down_from steps) ≡ none
unfolding pass down_from
down_from-pass delay = refl

pub passes-none : (n : ℕ) → 0 < n → passes n none ≡ none
unfolding passes
passes-none zero h = absurd (omega arith)
passes-none (suc n) h = refl

passes-duration :
    (n : ℕ) (body : List Action)
    → (acts : List Action) × (passes n (some body) ≡ some acts)
      × (duration acts ≡ n * duration body)
unfolding passes duration
passes-duration zero body = ([], refl, omega arith)
passes-duration (suc n) body =
    let (acts, e, d) = passes-duration n body in
    (body ++ acts, rw e refl, omega (arith, duration-append body acts, d))

pass-duration :
    (delay : ℕ)
    → (body : List Action) × (pass delay (up_from 0 steps) ≡ some body)
      × (duration body ≡ 8 * delay)
unfolding pass up_from duration
pass-duration delay = (_, refl, omega arith)

turns_lem : (round : ℕ) → round < 2 ^ 22 → turns round ≡ oneround * round
turns_lem round small = ground arith

-- For 1 to 2 ^ 22 - 1 rounds, whose passes an `int` counts, and every delay the way forward reads no array past its end, and waits eight
-- delays in each of its 512 passes for a round; the way back reads past the end of the arrays at its first step.
pub forward-backward :
    (round delay : ℕ)
    → 0 < round
    → round < 2 ^ 22
    → ((acts : List Action) × (forward round delay ≡ some acts)
        × (duration acts ≡ oneround * round * (8 * delay)))
      × (backward round delay ≡ none)
unfolding forward backward duration
forward-backward round delay some_round small =
    let (body, e, d) = pass-duration delay in
    let (acts, f, g) = passes-duration (oneround * round) body in
    rw (turns_lem round small) (
      (
        acts ++ setstep released,
        rw e (rw f refl),
        duration-append acts (setstep released)
            ∙ omega arith
            ∙ g
            ∙ ap (λ n. oneround * round * n) d,
      ),
      rw (down_from-pass delay) (rw (passes-none (oneround * round) (omega arith)) refl),
    )
