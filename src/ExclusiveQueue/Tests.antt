-- ===== src/ExclusiveQueue/Tests.antt =====
-- Runs of the counter of simple_block_2.c.
use embedded_system_software.Base.{◌≡◌, refl, List, [], ◌∷◌, arith}
use embedded_system_software.ExclusiveQueue.{
  Event, wake_one, wq_ex, wq_wake_up, retest_exclusive, decrement, step, run, init,
}
use embedded_system_software.ExclusiveQueue.Wakeups.{NotMissed, AllFit, run-NotMissed, awake}

abbrev pair : List Event
pair = wq_ex ∷ wq_ex ∷ wq_wake_up 1 ∷ wq_wake_up 1 ∷ wake_one ∷ wake_one ∷ retest_exclusive ∷ []

pair-AllFit : AllFit pair init
unfolding step
pair-AllFit = (
  tt,
  λ e. omega arith,
  (
    tt,
    λ e. omega arith,
    (
      refl,
      λ e. omega arith,
      (
        refl,
        λ e. omega arith,
        (tt, λ e. omega arith, (tt, λ e. omega arith, (tt, λ e. omega arith, tt))),
      ),
    ),
  ),
)

run-NotMissed_example : NotMissed (run pair init)
run-NotMissed_example = run-NotMissed pair pair-AllFit

-- Two numbers are added at once: one of the two exclusive consumers sleeps on, with a number left and nobody awake.
missed :
    let s =
      run (wq_ex ∷ wq_ex ∷ wq_wake_up 2 ∷ wake_one ∷ retest_exclusive ∷ decrement ∷ []) init in
    (s.my_data ≡ 1) × (s.asleep_exclusive ≡ 1) × (awake s ≡ 0)
unfolding run step
missed = (refl, refl, refl)
