-- ===== src/Scheduling/Delay.antt =====
-- `delay` of the scheduling programs: it reads the clock until enough time has passed.
use embedded_system_software.Base.{
  ℕ, zero, suc, ◌+◌, ◌-◌, ◌*◌, ◌≤◌, ◌<◌, ◌≡◌, refl, subst, inl, inr, Option, none, some, arith, ltb,
  ◌==◌, if◌then◌else◌, ltb→lt, le→ltb_false, Bool-cases,
}

-- The loop from one reading of the clock on; `limit` is the delay in ticks, CLOCKS_PER_SEC to the second, and the result is the
-- reading that ends it. On whole ticks the test of the doubles is the one of the numbers.
unfoldable pub wait : ℕ → (ℕ → ℕ) → ℕ → ℕ → ℕ → Option ℕ
wait zero clock start limit i = none
wait (suc fuel) clock start limit i =
    let rest = wait fuel clock start limit (i + 1) in
    if ltb (clock i - start) limit then rest else some i

unfoldable pub delay : ℕ → (ℕ → ℕ) → ℕ → Option ℕ
delay fuel clock limit = wait fuel clock (clock 0) limit 1

-- The clock never goes back, and moves at least once in `gap` readings.
pub record IsRunning (gap : ℕ) (clock : ℕ → ℕ) : Type 0 where
  pub forward : (i : ℕ) → clock i ≤ clock (i + 1)
  pub moves : (i : ℕ) → clock i < clock (i + gap)

-- The reading that ends a wait is the first that is late enough.
pub record Ends (clock : ℕ → ℕ) (start limit i j : ℕ) : Type 0 where
  pub after : i ≤ j
  pub late : limit ≤ clock j - start
  pub first : (m : ℕ) → i ≤ m → m < j → clock m - start < limit

-- The clock moves on by a tick at least in every stretch of `gap` readings.
clock-reaches :
    (gap : ℕ) (clock : ℕ → ℕ) (n i : ℕ) → IsRunning gap clock → clock i + n ≤ clock (i + n * gap)
clock-reaches gap clock zero i v =
    subst (λ m. clock i + 0 ≤ clock m) {x = i} {y = i + 0 * gap} (omega arith) (omega arith)
clock-reaches gap clock (suc n) i v =
    subst (λ m. clock i + suc n ≤ clock m) {x = (i + n * gap) + gap} {y = i + suc n * gap}
      (omega arith) (omega (arith, clock-reaches gap clock n i v, v.moves (i + n * gap)))

-- A reading that is too early is passed over.
early-Ends :
    (clock : ℕ → ℕ) (start limit i j : ℕ)
    → clock i - start < limit
    → Ends clock start limit (i + 1) j
    → Ends clock start limit i j
early-Ends clock start limit i j early v = record {
  after = omega (arith, v.after);
  late = v.late;
  first = λ m a b. elim (Bool-cases (m == i)) [
    | inl same ↦ subst (λ x. clock x - start < limit) {x = i} {y = m} (ground arith) early
    | inr other ↦ v.first m (ground arith) b
  ];
}

wait-returns :
    (fuel : ℕ) (clock : ℕ → ℕ) (start limit i d : ℕ)
    → limit ≤ clock (i + d) - start
    → d < fuel
    → (j : ℕ) × (wait fuel clock start limit i ≡ some j) × Ends clock start limit i j
unfolding wait
wait-returns zero clock start limit i d late enough = absurd (omega arith)
wait-returns (suc fuel) clock start limit i zero late enough =
    let now = subst (λ n. limit ≤ clock n - start) {x = i + 0} {y = i} (omega arith) late in
    rw (le→ltb_false (clock i - start) limit now)
      (i, refl, record { after = omega arith; late = now; first = λ m a b. absurd (omega arith) })
wait-returns (suc fuel) clock start limit i (suc d) late enough =
    elim (Bool-cases (ltb (clock i - start) limit)) [
      | inl early ↦
          let next =
            subst (λ n. limit ≤ clock n - start) {x = i + suc d} {y = (i + 1) + d} (omega arith)
              late in
          let (j, same, v) = wait-returns fuel clock start limit (i + 1) d next (omega arith) in
          rw early
            (j, same, early-Ends clock start limit i j (ltb→lt (clock i - start) limit early) v)
      | inr done ↦ rw done (
        i,
        refl,
        record { after = omega arith; late = ground arith; first = λ m a b. absurd (omega arith) },
      )
    ]

-- On a clock that goes on, the delay ends within as many readings as the ticks to wait for take, at the first reading
-- that is late enough.
pub delay-returns :
    (gap : ℕ) (clock : ℕ → ℕ) (limit fuel : ℕ)
    → IsRunning gap clock
    → limit * gap < fuel
    → (j : ℕ) × (delay fuel clock limit ≡ some j) × Ends clock (clock 0) limit 1 j
unfolding delay
delay-returns gap clock limit fuel v enough =
    wait-returns fuel clock (clock 0) limit 1 (limit * gap)
      (omega (arith, clock-reaches gap clock limit 1 v, v.forward 0)) enough
