-- ===== src/WaitQueue/Consumers.antt =====
-- What the producers of simple_block_1.c add is what its consumers take.
use embedded_system_software.Base.{
  ℕ, ◌+◌, ◌%◌, ◌^◌, ◌<◌, ◌≡◌, refl, List, [], ◌∷◌, arith, ◌==◌, if◌then◌else◌,
}
use embedded_system_software.WaitQueue.{
  Wait, wq, wq_interruptible, wq_interruptible_timeout, other, System, Event, consume, wake, signal,
  timeout, other, decrement, produce, step, run,
}

-- What a step adds to the counter, and how often it takes one from it.
abbrev pub added : Event → ℕ
added (produce arg) = arg
added (consume w) = 0
added (wake w) = 0
added (signal w) = 0
added timeout = 0
added other = 0
added decrement = 0

abbrev pub removed : Event → System → ℕ
removed decrement s = if s.passed == 0 then 0 else 1
removed (produce arg) s = 0
removed (consume w) s = 0
removed (wake w) s = 0
removed (signal w) s = 0
removed timeout s = 0
removed other s = 0

abbrev pub produced : List Event → ℕ
produced [] = 0
produced (e ∷ es) = added e + produced es

unfoldable pub taken : List Event → System → ℕ
taken [] s = 0
taken (e ∷ es) s = removed e s + taken es (step e s).1

-- The history in which no wait times out, no call has another command, and a consumer takes the lock as soon as it has found the counter positive.
abbrev pub calm : List Event → List Event
calm [] = []
calm (consume w ∷ es) = consume w ∷ decrement ∷ calm es
calm (wake w ∷ es) = wake w ∷ decrement ∷ calm es
calm (produce arg ∷ es) = produce arg ∷ calm es
calm (signal w ∷ es) = signal w ∷ calm es
calm (timeout ∷ es) = calm es
calm (other ∷ es) = calm es
calm (decrement ∷ es) = calm es

-- A consumer that has gone through the wait and the lock leaves nobody behind and takes what is there.
abbrev IsServed : Event → System → Type 0
IsServed e s =
    ((step decrement (step e s).1).1.passed ≡ 0)
    × ((step decrement (step e s).1).1.my_data + removed decrement (step e s).1 ≡ s.my_data)

module _ (s : System) (empty : s.passed ≡ 0) (small : s.my_data < 2 ^ 63) where
  consume-IsServed : (w : Wait) → IsServed (consume w) s
  unfolding step
  consume-IsServed wq = ground arith
  consume-IsServed wq_interruptible = ground arith
  consume-IsServed wq_interruptible_timeout = ground arith

  wake-IsServed : (w : Wait) → IsServed (wake w) s
  unfolding step
  wake-IsServed wq = ground arith
  wake-IsServed wq_interruptible = ground arith
  wake-IsServed wq_interruptible_timeout = ground arith

  signal-still :
      (w : Wait) → ((step (signal w) s).1.passed ≡ 0) × ((step (signal w) s).1.my_data ≡ s.my_data)
  unfolding step
  signal-still wq = (empty, refl)
  signal-still wq_interruptible = ground arith
  signal-still wq_interruptible_timeout = ground arith

-- In a calm history that adds less than 2 ^ 63 the counter is exactly what was added and not taken, so it is never below
-- 0: no consumer takes what is not there.
pub run-calm :
    (es : List Event) (s : System)
    → s.passed ≡ 0
    → s.my_data + produced es < 2 ^ 63
    → (run (calm es) s).my_data + taken (calm es) s ≡ s.my_data + produced es
unfolding run taken step
run-calm [] s empty small = refl
run-calm (consume w ∷ es) s empty small =
    let h = consume-IsServed s empty (omega arith) w in
    let t = (step decrement (step (consume w) s).1).1 in
    let ih = run-calm es t h.0 (omega arith) in omega arith
run-calm (wake w ∷ es) s empty small =
    let h = wake-IsServed s empty (omega arith) w in
    let t = (step decrement (step (wake w) s).1).1 in
    let ih = run-calm es t h.0 (omega arith) in omega arith
run-calm (produce arg ∷ es) s empty small =
    let t = record s { my_data = (s.my_data + arg) % 2 ^ 64 } in
    let exact : (s.my_data + arg) % 2 ^ 64 ≡ s.my_data + arg = omega arith in
    let ih = run-calm es t empty (omega arith) in omega arith
run-calm (signal w ∷ es) s empty small =
    let h = signal-still s empty (omega arith) w in
    let ih = run-calm es (step (signal w) s).1 h.0 (omega arith) in omega arith
run-calm (timeout ∷ es) s empty small = let ih = run-calm es s empty (omega arith) in omega arith
run-calm (other ∷ es) s empty small = let ih = run-calm es s empty (omega arith) in omega arith
run-calm (decrement ∷ es) s empty small = let ih = run-calm es s empty (omega arith) in omega arith
