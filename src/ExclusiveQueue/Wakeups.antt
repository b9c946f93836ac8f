-- ===== src/ExclusiveQueue/Wakeups.antt =====
-- No consumer of simple_block_2.c sleeps beside a number that nobody is on the way to.
use embedded_system_software.Base.{
  ℕ, ◌+◌, ◌^◌, ◌≤◌, ◌<◌, ◌≡◌, sym, subst, ◌≢◌, ◌⊎◌, inl, true, List, [], ◌∷◌, arith,
}
use embedded_system_software.ExclusiveQueue.{
  System, is_positive, Event, wq, wq_ex, other, wq_wake_up, wq_wake_up_all, retest,
  retest_exclusive, signal, signal_exclusive, decrement, wake_one, wake_every, step, run, init,
}

-- The consumers that are on the way to the counter.
abbrev pub awake : System → ℕ
awake s = s.woken + s.woken_exclusive + s.passed

-- While the counter is positive and no producer is about to wake all, nobody sleeps but exclusive consumers, unless a producer is
-- about to wake one; and exclusive consumers only while as many consumers and producers as it says are awake.
abbrev pub NotMissed : System → Type 0
NotMissed s =
    is_positive s.my_data ≡ true
    → (0 < s.waking_all)
      ⊎ (((s.asleep ≡ 0) ⊎ (0 < s.waking))
          × ((s.asleep_exclusive ≡ 0) ⊎ (s.my_data ≤ awake s + s.waking)))

-- WQ_WAKE_UP adds one.
abbrev pub AddsOne : Event → Type 0
AddsOne (wq_wake_up arg) = arg ≡ 1
AddsOne (wq_wake_up_all arg) = Unit
AddsOne wq = Unit
AddsOne wq_ex = Unit
AddsOne other = Unit
AddsOne retest = Unit
AddsOne retest_exclusive = Unit
AddsOne signal = Unit
AddsOne signal_exclusive = Unit
AddsOne decrement = Unit
AddsOne wake_one = Unit
AddsOne wake_every = Unit

-- The counter does not leave the range of a `long` from below: it is not the least number of that type.
abbrev pub NotLeast : System → Type 0
NotLeast s = s.my_data ≢ 2 ^ 63

-- The events do so from a state on.
abbrev pub AllFit : List Event → System → Type 0
AllFit [] s = Unit
AllFit (e ∷ es) s = AddsOne e × NotLeast s × AllFit es (step e s)

module _ (s : System) (small : s.my_data < 2 ^ 64) (h : NotMissed s) where
  add-NotMissed : NotMissed (step (wq_wake_up 1) s)
  unfolding step
  add-NotMissed = ground arith

  step-NotMissed : (e : Event) → AddsOne e → NotLeast s → NotMissed (step e s)
  unfolding step
  step-NotMissed (wq_wake_up arg) one least =
      subst (λ n. NotMissed (step (wq_wake_up n) s)) (sym one) add-NotMissed
  step-NotMissed (wq_wake_up_all arg) one least = λ p. inl (omega arith)
  step-NotMissed wq one least = ground arith
  step-NotMissed wq_ex one least = ground arith
  step-NotMissed other one least = ground arith
  step-NotMissed retest one least = ground arith
  step-NotMissed retest_exclusive one least = ground arith
  step-NotMissed signal one least = ground arith
  step-NotMissed signal_exclusive one least = ground arith
  step-NotMissed decrement one least = ground arith
  step-NotMissed wake_one one least = ground arith
  step-NotMissed wake_every one least = ground arith

  step-small : (e : Event) → (step e s).my_data < 2 ^ 64
  unfolding step
  step-small (wq_wake_up arg) = omega arith
  step-small (wq_wake_up_all arg) = omega arith
  step-small wq = ground arith
  step-small wq_ex = ground arith
  step-small other = small
  step-small retest = ground arith
  step-small retest_exclusive = ground arith
  step-small signal = small
  step-small signal_exclusive = small
  step-small decrement = ground arith
  step-small wake_one = ground arith
  step-small wake_every = ground arith

run-step :
    (es : List Event) (s : System)
    → s.my_data < 2 ^ 64
    → NotMissed s
    → AllFit es s
    → NotMissed (run es s)
unfolding run
run-step [] s small h fit = h
run-step (e ∷ es) s small h fit =
    run-step es (step e s) (step-small s small h e) (step-NotMissed s small h e fit.0 fit.1) fit.2

-- While WQ_WAKE_UP adds one at a time and the counter stays in range, no wake-up is missed: when the counter is positive and no
-- producer is between its addition and its wake-up of all, others than exclusive consumers sleep only while a producer is between its addition and
-- its wake-up of one, and exclusive consumers only while at least as many consumers are awake and producers about to wake one as the counter says.
pub run-NotMissed : (es : List Event) → AllFit es init → NotMissed (run es init)
run-NotMissed es fit = run-step es init (omega arith) (λ p. cc) fit
