-- ===== src/Switch/Echo.antt =====
-- The distance sensor of switch.c: a reading is asked for, its echo goes up and down, and the width of the echo is the
-- distance.
use embedded_system_software.Base.{
  ℕ, ◌-◌, ◌/◌, ◌^◌, ◌≤◌, ◌<◌, ◌≡◌, ◌∙◌, ◌≢◌, ◌⊎◌, inl, inr, Bool, true, false, some, List, [], ◌∷◌,
  arith, Option-cases, All, ℤ, pos,
}
use embedded_system_software.Switch.{
  Driver, Edge, switch_irq_isr, ultrasonic_isr, ultrasonic_tasklet_func, switch_tasklet_func,
  switch_ioctl, switch_queue_get, switch_queue_close, switch_recv, ultrasonic_recv, queue_get,
  queue_close, recv_switch, recv_ultrasonic, unknown,
}
use embedded_system_software.Switch.Events.{
  Event, button, echo, run_switch, run_ultrasonic, call, step, run,
}

-- The documented value of `ktime_to_us(ktime_sub(stop, start))`: whole microseconds of a difference in nanoseconds.
pub record IsElapsed (us : ℕ → ℕ → ℤ) : Type 0 where
  pub micros : (stop start : ℕ) → start ≤ stop → us stop start ≡ pos ((stop - start) / 1000)

-- A reading that has been asked for: the edge up starts the clock, the edge down stops it and gives the width of the echo
-- in units of 58 microseconds, which is the distance in centimetres, to the second tasklet; the sensor is idle again.
ultrasonic_isr-reads :
    (us : ℕ → ℕ → ℤ)
    → IsElapsed us
    → (s : Driver) (start stop j k : ℕ) → s.echo_valid_flag ≡ 1
    → start ≤ stop
    → (stop - start) / 1000 < 2 ^ 31
    → let t =
        ultrasonic_isr us
          (record { now = stop; echo = 0; jiffies = k })
          (ultrasonic_isr us (record { now = start; echo = 1; jiffies = j }) s) in
      (t.ultrasonic_data_tmp ≡ record { value = pos ((stop - start) / 58000); timestamp = k })
      × (t.ultrasonic_pending ≡ true)
      × (t.echo_valid_flag ≡ 3)
unfolding ultrasonic_isr
ultrasonic_isr-reads us doc s start stop j k flag order small =
    ground (arith, doc.micros stop start order)

-- An edge that the state does not wait for changes nothing.
ultrasonic_isr-ignores :
    (us : ℕ → ℕ → ℤ) (e : Edge) (s : Driver)
    → ((s.echo_valid_flag ≡ 1) × (e.echo ≢ 1))
      ⊎ ((s.echo_valid_flag ≡ 2) × (e.echo ≢ 0))
      ⊎ (s.echo_valid_flag ≡ 3)
    → ultrasonic_isr us e s ≡ s
unfolding ultrasonic_isr
ultrasonic_isr-ignores us e s h = ground arith

-- The trigger is pulled only when no reading is open.
pub switch_tasklet_func-waits :
    (k : Bool) (s t : Driver)
    → s.echo_valid_flag ≢ 3
    → switch_tasklet_func k s ≡ some t
    → (t.trigger ≡ s.trigger) × (t.echo_valid_flag ≡ s.echo_valid_flag)
unfolding switch_tasklet_func
switch_tasklet_func-waits k s t open_reading e = (ground arith, ground arith)

abbrev pub IsSilent : Event → Type 0
IsSilent (button b jiffies) = Unit {0}
IsSilent (echo e) = ⊥
IsSilent (run_switch ok) = Unit {0}
IsSilent (run_ultrasonic ok) = Unit {0}
IsSilent (call r) = Unit {0}

step-trigger :
    (us : ℕ → ℕ → ℤ) (e : Event) (s t : Driver)
    → IsSilent e
    → s.echo_valid_flag ≡ 1
    → step us e s ≡ some t
    → (t.trigger ≡ s.trigger) × (t.echo_valid_flag ≡ 1)
unfolding step switch_irq_isr ultrasonic_tasklet_func switch_ioctl switch_queue_get
    switch_queue_close switch_recv ultrasonic_recv
step-trigger us (button b jiffies) s t h flag e = ground arith
step-trigger us (echo x) s t h flag e = absurd h
step-trigger us (run_switch k) s t h flag e =
    ground (arith, switch_tasklet_func-waits k (record s { switch_pending = false }) t)
step-trigger us (run_ultrasonic k) s t h flag e = (ground arith, ground arith)
step-trigger us (call (queue_get arg)) s t h flag e = (ground arith, ground arith)
step-trigger us (call (queue_close arg)) s t h flag e = (ground arith, ground arith)
step-trigger us (call (recv_switch arg)) s t h flag e = (ground arith, ground arith)
step-trigger us (call (recv_ultrasonic arg)) s t h flag e = (ground arith, ground arith)
step-trigger us (call unknown) s t h flag e = ground arith

-- If the echo of a reading never comes, no reading is ever asked for again: whatever else happens, the trigger stays as it is.
pub run-trigger_stuck :
    (us : ℕ → ℕ → ℤ) (es : List Event) (s t : Driver)
    → All IsSilent es
    → s.echo_valid_flag ≡ 1
    → run us es s ≡ some t
    → t.trigger ≡ s.trigger
unfolding run
run-trigger_stuck us [] s t h flag e = ground arith
run-trigger_stuck us (x ∷ es) s t h flag e = elim (Option-cases (step us x s)) [
  | inl fault ↦ let none_some = rw fault at e in cc
  | inr (u, done) ↦
      let kept = step-trigger us x s u h.0 flag done in
      run-trigger_stuck us es u t h.1 kept.1 (rw done at e) ∙ kept.0
]
