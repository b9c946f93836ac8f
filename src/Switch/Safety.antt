-- ===== src/Switch/Safety.antt =====
-- No sequence of events of well-behaved processes makes the driver of switch.c fault.
use mathlib.Core.Option
use embedded_system_software.Base.{
  ℕ, ◌<◌, ◌≡◌, refl, true, false, Option, none, some, List, [], ◌∷◌, arith, ◌>>=◌, get_elem?,
  total-set, All, length-set, get_elem?-lt, ℤ, pos, as_int-small,
}
use embedded_system_software.Switch.{
  take_switch, take_ultrasonic, Driver, Sample, Request, queue_get, queue_close, recv_switch,
  recv_ultrasonic, unknown, queue_num, free_nodes, switch_irq_isr, ultrasonic_isr,
  switch_tasklet_func, ultrasonic_tasklet_func, switch_queue_get, switch_queue_close, switch_recv,
  ultrasonic_recv, switch_ioctl,
}
use embedded_system_software.Switch.Events.{
  Event, button, echo, run_switch, run_ultrasonic, call, step, run,
}
use embedded_system_software.Switch.Invariant.{
  Inv, length-broadcast, total-broadcast, broadcast-IsOwned, use_set-IsOwned, clear-IsOwned,
  tail-IsOwned, free_nodes_lem,
}

-- What a well-behaved process and a kernel with memory do.
abbrev pub IsWellFormed : Event → Type 0
IsWellFormed (button b jiffies) = Unit {0}
IsWellFormed (echo e) = Unit {0}
IsWellFormed (run_switch ok) = ok ≡ true
IsWellFormed (run_ultrasonic ok) = ok ≡ true
IsWellFormed (call (queue_get arg)) = arg < queue_num
IsWellFormed (call (queue_close arg)) = arg < queue_num
IsWellFormed (call (recv_switch arg)) = arg < queue_num
IsWellFormed (call (recv_ultrasonic arg)) = arg < queue_num
IsWellFormed (call unknown) = Unit {0}

abbrev pub Keeps : Option Driver → Type 0
Keeps none = ⊥
Keeps (some s) = Inv s

abbrev pub Answers : Option (ℤ × Driver) → Type 0
Answers none = ⊥
Answers (some (code, s)) = Inv s

module _ (s : Driver) (v : Inv s) where
  switch_tasklet_func-Inv : Keeps (switch_tasklet_func true s)
  unfolding switch_tasklet_func
  switch_tasklet_func-Inv =
      let d = s.switch_data_tmp in
      ground (
        arith,
        length-broadcast d s.queue_use s.switch_queues,
        total-broadcast d s.queue_use s.switch_queues,
        broadcast-IsOwned d s.queue_use s.switch_queues,
      )

  ultrasonic_tasklet_func-Inv : Keeps (ultrasonic_tasklet_func true s)
  unfolding ultrasonic_tasklet_func
  ultrasonic_tasklet_func-Inv =
      let d = s.ultrasonic_data_tmp in
      ground (
        arith,
        length-broadcast d s.queue_use s.ultrasonic_queues,
        total-broadcast d s.queue_use s.ultrasonic_queues,
        broadcast-IsOwned d s.queue_use s.ultrasonic_queues,
      )

  module _ (i : ℕ) (h : i < queue_num) where
    switch_queue_get-Inv : Answers (switch_queue_get s (pos i))
    unfolding switch_queue_get
    switch_queue_get-Inv =
        let (u, e) = get_elem?-lt s.queue_use i (omega (arith, v.use_length)) in
        rw e (
          ground (
            arith,
            length-set s.queue_use i 1,
            use_set-IsOwned s.queue_use s.switch_queues i,
            use_set-IsOwned s.queue_use s.ultrasonic_queues i,
          ))

    switch_queue_close-Inv : Answers (switch_queue_close s (pos i))
    unfolding switch_queue_close
    switch_queue_close-Inv =
        let (u, e) = get_elem?-lt s.queue_use i (omega (arith, v.use_length)) in
        let (q, eq) = get_elem?-lt s.switch_queues i (omega (arith, v.switch_length)) in
        let (w, ew) = get_elem?-lt s.ultrasonic_queues i (omega (arith, v.ultrasonic_length)) in
        rw (e, eq, ew, free_nodes_lem w (free_nodes q s.heap), free_nodes_lem q s.heap)
          (ground (
            arith,
            length-set s.queue_use i 0,
            length-set s.switch_queues i [],
            length-set s.ultrasonic_queues i [],
            clear-IsOwned s.queue_use s.switch_queues i 0,
            clear-IsOwned s.queue_use s.ultrasonic_queues i 0,
            total-set s.switch_queues i q [] eq,
            total-set s.ultrasonic_queues i w [] ew,
          ))

    take_switch-Inv :
        (q : List Sample) → get_elem? s.switch_queues i ≡ some q → Inv (take_switch s (pos i) q).1
    take_switch-Inv [] e = v
    take_switch-Inv (d ∷ q) e = ground (
      arith,
      length-set s.switch_queues i q,
      tail-IsOwned s.queue_use s.switch_queues i d q e,
      total-set s.switch_queues i (d ∷ q) q e,
    )

    switch_recv-Inv : Answers (switch_recv s (pos i))
    unfolding switch_recv
    switch_recv-Inv =
        let (q, e) = get_elem?-lt s.switch_queues i (omega (arith, v.switch_length)) in
        rw e (take_switch-Inv q e)

    take_ultrasonic-Inv :
        (q : List Sample)
        → get_elem? s.ultrasonic_queues i ≡ some q
        → Inv (take_ultrasonic s (pos i) q).1
    take_ultrasonic-Inv [] e = v
    take_ultrasonic-Inv (d ∷ q) e = ground (
      arith,
      length-set s.ultrasonic_queues i q,
      tail-IsOwned s.queue_use s.ultrasonic_queues i d q e,
      total-set s.ultrasonic_queues i (d ∷ q) q e,
    )

    ultrasonic_recv-Inv : Answers (ultrasonic_recv s (pos i))
    unfolding ultrasonic_recv
    ultrasonic_recv-Inv =
        let (q, e) = get_elem?-lt s.ultrasonic_queues i (omega (arith, v.ultrasonic_length)) in
        rw e (take_ultrasonic-Inv q e)

switch_ioctl-Inv :
    (s : Driver) (r : Request) → IsWellFormed (call r) → Inv s → Answers (switch_ioctl s r)
unfolding switch_ioctl
switch_ioctl-Inv s (queue_get arg) ok v =
    rw (as_int-small arg (omega arith)) (switch_queue_get-Inv s v arg ok)
switch_ioctl-Inv s (queue_close arg) ok v =
    rw (as_int-small arg (omega arith)) (switch_queue_close-Inv s v arg ok)
switch_ioctl-Inv s (recv_switch arg) ok v =
    rw (as_int-small arg (omega arith)) (switch_recv-Inv s v arg ok)
switch_ioctl-Inv s (recv_ultrasonic arg) ok v =
    rw (as_int-small arg (omega arith)) (ultrasonic_recv-Inv s v arg ok)
switch_ioctl-Inv s unknown ok v = v

answer-Keeps : (o : Option (ℤ × Driver)) → Answers o → Keeps (Option.map (λ t. t.1) o)
answer-Keeps none h = h
answer-Keeps (some t) h = h

-- A well-formed event does not fault, and keeps the invariant.
pub step-Inv :
    (elapsed_us : ℕ → ℕ → ℤ) (e : Event) (s : Driver)
    → IsWellFormed e
    → Inv s
    → Keeps (step elapsed_us e s)
unfolding step switch_irq_isr ultrasonic_isr
step-Inv us (button b jiffies) s ok v = ground arith
step-Inv us (echo e) s ok v = ground arith
step-Inv us (run_switch k) s ok v =
    rw ok (ground (arith, switch_tasklet_func-Inv (record s { switch_pending = false })))
step-Inv us (run_ultrasonic k) s ok v =
    rw ok (ground (arith, ultrasonic_tasklet_func-Inv (record s { ultrasonic_pending = false })))
step-Inv us (call r) s ok v = answer-Keeps (switch_ioctl s r) (switch_ioctl-Inv s r ok v)

resume :
    (us : ℕ → ℕ → ℤ) (es : List Event) (o : Option Driver)
    → Keeps o
    → ((s : Driver) → Inv s → (t : Driver) × (run us es s ≡ some t) × Inv t)
    → (t : Driver) × ((o >>= run us es) ≡ some t) × Inv t
resume us es none kept rest = absurd kept
resume us es (some s) kept rest = rest s kept

-- From a state in good order on, no sequence of well-formed events faults: the lists have their ten
-- entries, queues that nobody uses are empty, and every node allocated is in a queue or freed.
pub run-Inv :
    (elapsed_us : ℕ → ℕ → ℤ) (es : List Event) (s : Driver)
    → All IsWellFormed es
    → Inv s
    → (t : Driver) × (run elapsed_us es s ≡ some t) × Inv t
unfolding run
run-Inv us [] s ok v = (s, refl, v)
run-Inv us (e ∷ es) s ok v =
    resume us es (step us e s) (step-Inv us e s ok.0 v) λ t w. run-Inv us es t ok.1 w
