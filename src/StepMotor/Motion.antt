-- ===== src/StepMotor/Motion.antt =====
-- How the step motor of the coffer turns: back the way it came.
use embedded_system_software.Base.{
  ℕ, zero, suc, ◌+◌, ◌≡◌, refl, sym, ap, ◌∙◌, List, [], ◌∷◌, ◌++◌, arith,
}
use mathlib.Core.List.{reverse, reverse-append, append_assoc, append-nil}
use embedded_system_software.Actuator.{repeat}
use embedded_system_software.StepMotor.{Coils, column, ascending, descending}

ascending-last : (j n : ℕ) → ascending j (suc n) ≡ ascending j n ++ (column (j + n) ∷ [])
unfolding ascending
ascending-last j zero = ap (λ k. column k ∷ []) (omega arith)
ascending-last j (suc n) =
    ap (◌∷◌ (column j))
      (ascending-last (j + 1) n ∙ ap (λ k. ascending (j + 1) n ++ (column k ∷ [])) (omega arith))

descending-reverse : (n : ℕ) → descending n ≡ reverse (ascending 0 n)
unfolding descending ascending
descending-reverse zero = refl
descending-reverse (suc n) =
    rw
      (
        ascending-last 0 n,
        reverse-append (ascending 0 n) (column (0 + n) ∷ []),
        descending-reverse n,
      )
      (ap (λ k. column k ∷ reverse (ascending 0 n)) (omega arith))

repeat-last : (n : ℕ) (xs : List Coils) → repeat (suc n) xs ≡ repeat n xs ++ xs
unfolding repeat
repeat-last zero xs = append-nil xs
repeat-last (suc n) xs = ap (◌++◌ xs) (repeat-last n xs) ∙ sym (append_assoc xs (repeat n xs) xs)

repeat-reverse : (n : ℕ) (xs : List Coils) → repeat n (reverse xs) ≡ reverse (repeat n xs)
unfolding repeat
repeat-reverse zero xs = refl
repeat-reverse (suc n) xs =
    repeat-last n (reverse xs)
    ∙ ap (λ l. l ++ reverse xs) (repeat-reverse n xs)
    ∙ sym (reverse-append xs (repeat n xs))

-- However many rounds and columns, the loops of `step_motor_close` take the steps of `step_motor_open` in reverse.
closing_reverses :
    (rounds columns : ℕ)
    → repeat rounds (descending columns) ≡ reverse (repeat rounds (ascending 0 columns))
closing_reverses rounds columns =
    rw (descending-reverse columns) (repeat-reverse rounds (ascending 0 columns))
