-- ===== src/Switch/Debounce.antt =====
-- The debouncing of the buttons in switch.c, and what it costs when the jiffies start anew.
use mathlib.Core.Option
use mathlib.Core.Option.{some-injective}
use embedded_system_software.Base.{
  ℕ, ◌+◌, ◌%◌, ◌^◌, ◌≤◌, ◌<◌, ◌≡◌, refl, subst, ◌⊎◌, inl, inr, Bool, false, Option, none, some,
  List, [], ◌∷◌, arith, ltb, Bool-cases, Option-cases, ◌>>=◌, All, ℤ, as_int, at, put_at,
  All-put_at, All-at,
}
use embedded_system_software.Switch.{
  Driver, Sample, queue_get, queue_close, recv_switch, recv_ultrasonic, unknown, debounce,
  broadcast, take_switch, switch_irq_isr, ultrasonic_isr, switch_tasklet_func,
  ultrasonic_tasklet_func, switch_queue_get, switch_queue_close, switch_recv, ultrasonic_recv,
  switch_ioctl,
}
use embedded_system_software.Switch.Spacing.{IsSpaced, IsSpaced-tail, broadcast-IsSpaced}
use embedded_system_software.Switch.Events.{
  Event, button, echo, run_switch, run_ultrasonic, call, step, run,
}
use embedded_system_software.Switch.Setup.{initial}
use embedded_system_software.Switch.Invariant.{initial-Inv}
use embedded_system_software.Switch.Safety.{IsWellFormed, run-Inv}

pub record IsTimed (s : Driver) : Type 0 where
  pub pre_small : s.pre + debounce < 2 ^ 32
  pub pending_small : s.switch_data_tmp.timestamp + debounce < 2 ^ 32
  pub spaced : All (IsSpaced s.pre) s.switch_queues

-- The jiffies of the presses stay below the end of the 32-bit range.
abbrev pub IsTimely : Event → Type 0
IsTimely (button b jiffies) = jiffies + debounce < 2 ^ 32
IsTimely (echo e) = Unit {0}
IsTimely (run_switch ok) = Unit {0}
IsTimely (run_ultrasonic ok) = Unit {0}
IsTimely (call r) = Unit {0}

abbrev Stays : Option Driver → Type 0
Stays none = Unit {0}
Stays (some t) = IsTimed t

-- What the times depend on.
abbrev SameTimes : Driver → Driver → Type 0
SameTimes s t =
    (t.pre ≡ s.pre) × (t.switch_data_tmp ≡ s.switch_data_tmp) × (t.switch_queues ≡ s.switch_queues)

same-IsTimed : (s t : Driver) → IsTimed s → SameTimes s t → IsTimed t
same-IsTimed s t v e = record {
  pre_small = omega (arith, v.pre_small, e.0);
  pending_small = rw e.1 v.pending_small;
  spaced = rw (e.0, e.2) v.spaced;
}

same-Stays :
    (s : Driver) (o : Option Driver)
    → IsTimed s
    → ((t : Driver) → o ≡ some t → SameTimes s t)
    → Stays o
same-Stays s none v h = tt
same-Stays s (some t) v h = same-IsTimed s t v (h t refl)

Stays-either :
    (s s' : Driver) (o : Option Driver)
    → IsTimed s
    → IsTimed s'
    → ((t : Driver) → o ≡ some t → SameTimes s t ⊎ SameTimes s' t)
    → Stays o
Stays-either s s' none v v' h = tt
Stays-either s s' (some t) v v' h = elim (h t refl) [
  | inl e ↦ same-IsTimed s t v e
  | inr e ↦ same-IsTimed s' t v' e
]

initial-IsTimed : IsTimed initial
unfolding initial
initial-IsTimed = omega arith

-- The state that an accepted press leads to.
accept : Driver → Driver
accept s = record s {
  switch_queues = broadcast s.switch_data_tmp s.queue_use s.switch_queues;
  pre = s.switch_data_tmp.timestamp;
}

accept-IsTimed :
    (s : Driver) → IsTimed s → s.pre + debounce < s.switch_data_tmp.timestamp → IsTimed (accept s)
unfolding accept
accept-IsTimed s v h = record {
  pre_small = v.pending_small;
  pending_small = v.pending_small;
  spaced = broadcast-IsSpaced s.pre s.switch_data_tmp s.queue_use s.switch_queues h v.spaced;
}

switch_tasklet_func-IsTimed : (k : Bool) (s : Driver) → IsTimed s → Stays (switch_tasklet_func k s)
unfolding switch_tasklet_func accept
switch_tasklet_func-IsTimed k s v =
    let late = ltb ((s.pre + debounce) % 2 ^ 32) s.switch_data_tmp.timestamp in
    elim (Bool-cases late) [
      | inl e ↦
          same-Stays (accept s) (switch_tasklet_func k s) (accept-IsTimed s v (ground arith))
            (λ t h. ground arith)
      | inr e ↦ same-Stays s (switch_tasklet_func k s) v (λ t h. ground arith)
    ]

set-IsSpaced :
    (s : Driver) (key : ℤ) (q : List Sample)
    → IsTimed s
    → IsSpaced s.pre q
    → All (IsSpaced s.pre) (put_at s.switch_queues key q)
set-IsSpaced s key q v h = All-put_at (IsSpaced s.pre) s.switch_queues key q h v.spaced

take_switch-IsTimed :
    (s : Driver) (key : ℤ) (q : List Sample)
    → IsTimed s
    → at s.switch_queues key ≡ some q
    → IsTimed (take_switch s key q).1
take_switch-IsTimed s key [] v e = v
take_switch-IsTimed s key (d ∷ q) v e =
    let h = All-at (IsSpaced s.pre) s.switch_queues key (d ∷ q) v.spaced e in
    record {
      pre_small = v.pre_small;
      pending_small = v.pending_small;
      spaced = set-IsSpaced s key q v (IsSpaced-tail s.pre d q h);
    }

module _ (s : Driver) (key : ℤ) (v : IsTimed s) where
  get-IsTimed : Stays (Option.map (λ t. t.1) (switch_queue_get s key))
  unfolding switch_queue_get
  get-IsTimed = elim (Option-cases (at s.queue_use key)) [
    | inl e ↦ rw e tt
    | inr (u, e) ↦ rw e (ground arith)
  ]

  emptied : Driver
  emptied = record s { switch_queues = put_at s.switch_queues key [] }

  emptied-IsTimed : IsTimed emptied
  unfolding emptied
  emptied-IsTimed = record {
    pre_small = v.pre_small;
    pending_small = v.pending_small;
    spaced = set-IsSpaced s key [] v tt;
  }

  close-IsTimed : Stays (Option.map (λ t. t.1) (switch_queue_close s key))
  unfolding switch_queue_close emptied
  close-IsTimed =
      Stays-either s emptied (Option.map (λ t. t.1) (switch_queue_close s key)) v emptied-IsTimed
        λ t e. ground arith

  recv_switch-IsTimed : Stays (Option.map (λ t. t.1) (switch_recv s key))
  unfolding switch_recv
  recv_switch-IsTimed = elim (Option-cases (at s.switch_queues key)) [
    | inl e ↦ rw e tt
    | inr (q, e) ↦ rw e (take_switch-IsTimed s key q v e)
  ]

  recv_ultrasonic-IsTimed : Stays (Option.map (λ t. t.1) (ultrasonic_recv s key))
  unfolding ultrasonic_recv
  recv_ultrasonic-IsTimed = elim (Option-cases (at s.ultrasonic_queues key)) [
    | inl e ↦ rw e tt
    | inr ([], e) ↦ rw e v
    | inr (d ∷ q, e) ↦ rw e (same-IsTimed s _ v (refl, refl, refl))
  ]

step-IsTimed :
    (us : ℕ → ℕ → ℤ) (e : Event) (s : Driver) → IsTimely e → IsTimed s → Stays (step us e s)
unfolding step switch_irq_isr ultrasonic_isr switch_ioctl ultrasonic_tasklet_func
step-IsTimed us (button b jiffies) s h v = record {
  pre_small = v.pre_small;
  pending_small = h;
  spaced = v.spaced;
}
step-IsTimed us (echo e) s h v =
    same-IsTimed s (ultrasonic_isr us e s) v (ground arith, ground arith, ground arith)
step-IsTimed us (run_switch k) s h v = elim (Bool-cases s.switch_pending) [
  | inl e ↦ rw e (
      switch_tasklet_func-IsTimed k (record s { switch_pending = false })
        (same-IsTimed s _ v (refl, refl, refl)))
  | inr e ↦ rw e (same-IsTimed s _ v (refl, refl, refl))
]
step-IsTimed us (run_ultrasonic k) s h v =
    same-Stays s (step us (run_ultrasonic k) s) v (λ t e. ground arith)
step-IsTimed us (call (queue_get arg)) s h v = get-IsTimed s (as_int arg) v
step-IsTimed us (call (queue_close arg)) s h v = close-IsTimed s (as_int arg) v
step-IsTimed us (call (recv_switch arg)) s h v = recv_switch-IsTimed s (as_int arg) v
step-IsTimed us (call (recv_ultrasonic arg)) s h v = recv_ultrasonic-IsTimed s (as_int arg) v
step-IsTimed us (call unknown) s h v = v

rest-IsTimed :
    (us : ℕ → ℕ → ℤ) (es : List Event) (t : Driver)
    → ((u : Driver) → IsTimed u → run us es u ≡ some t → IsTimed t)
    → (o : Option Driver) → Stays o
    → (o >>= run us es) ≡ some t
    → IsTimed t
rest-IsTimed us es t ih none w r = cc
rest-IsTimed us es t ih (some u) w r = ih u w r

run-IsTimed :
    (us : ℕ → ℕ → ℤ) (es : List Event) (s t : Driver)
    → All IsTimely es
    → IsTimed s
    → run us es s ≡ some t
    → IsTimed t
unfolding run
run-IsTimed us [] s t h v e = subst IsTimed (some-injective s t e) v
run-IsTimed us (e ∷ es) s t h v ran =
    rest-IsTimed us es t (λ u w r. run-IsTimed us es u t h.1 w r) (step us e s)
      (step-IsTimed us e s h.0 v) ran

-- In every history that starts with the loaded module, whose calls are well-formed and whose presses come before the
-- 32-bit jiffies end, no fault occurs and in every queue each press is more than 20 jiffies after the one before it.
pub run-IsSpaced :
    (us : ℕ → ℕ → ℤ) (es : List Event)
    → All IsWellFormed es
    → All IsTimely es
    → (t : Driver) × (run us es initial ≡ some t) × All (IsSpaced t.pre) t.switch_queues
run-IsSpaced us es ok timely =
    let (t, ran, v) = run-Inv us es initial ok initial-Inv in
    (t, ran, (run-IsTimed us es initial t timely initial-IsTimed ran).spaced)

-- Once a press has been taken at `pre`, a press whose jiffies are at most `pre + 20` is dropped, with no queue, no trigger
-- and no memory touched. So after the 32-bit jiffies start anew at 0 every press is dropped until they pass `pre` again.
switch_tasklet_func-drops :
    (k : Bool) (s : Driver)
    → s.pre + debounce < 2 ^ 32
    → s.switch_data_tmp.timestamp ≤ s.pre + debounce
    → switch_tasklet_func k s ≡ some s
unfolding switch_tasklet_func
switch_tasklet_func-drops k s small h = ground arith
