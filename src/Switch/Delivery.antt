-- ===== src/Switch/Delivery.antt =====
-- Who gets a press of switch.c: every queue in use, once, and the reader of a queue in order.
use embedded_system_software.Base.{
  ℕ, zero, suc, ◌+◌, ◌^◌, ◌<◌, ◌≡◌, refl, ◌≢◌, true, false, some, List, [], ◌∷◌, ◌++◌, arith, ◌==◌,
  if◌then◌else◌, get_elem?, get_elem?-set_self, lt_of_get_elem?, ℤ, pos, minus_one,
}
use embedded_system_software.Switch.{
  Driver, Sample, debounce, broadcast, users, allocate, start_ultrasonic, switch_irq_isr,
  switch_tasklet_func, switch_recv, take_switch,
}
use embedded_system_software.Switch.Events.{Event, button, run_switch, step, run}

pub get_elem?-broadcast :
    (d : Sample) (us : List ℕ) (qs : List (List Sample)) (i u : ℕ) (q : List Sample)
    → get_elem? us i ≡ some u
    → get_elem? qs i ≡ some q
    → get_elem? (broadcast d us qs) i ≡ some (if u == 0 then q else q ++ (d ∷ []))
unfolding broadcast
get_elem?-broadcast d [] qs i u q e f = ground arith
get_elem?-broadcast d (v ∷ us) [] i u q e f = ground arith
get_elem?-broadcast d (v ∷ us) (p ∷ qs) zero u q e f = ground arith
get_elem?-broadcast d (v ∷ us) (p ∷ qs) (suc i) u q e f = get_elem?-broadcast d us qs i u q e f

-- The state after a press that the tasklet accepts.
abbrev pub accepted : Driver → Driver
accepted s = start_ultrasonic (record s {
  switch_queues = broadcast s.switch_data_tmp s.queue_use s.switch_queues;
  pre = s.switch_data_tmp.timestamp;
  heap = allocate (users s.queue_use) s.heap;
})

module _ (s : Driver) (small : s.pre + debounce < 2 ^ 32)
    (late : s.pre + debounce < s.switch_data_tmp.timestamp) where
  pub switch_tasklet_func-accepted : switch_tasklet_func true s ≡ some (accepted s)
  unfolding switch_tasklet_func
  switch_tasklet_func-accepted = ground arith

  queues-accepted :
      (accepted s).switch_queues ≡ broadcast s.switch_data_tmp s.queue_use s.switch_queues
  queues-accepted = ground arith

  -- A press that comes late enough is appended to every queue in use and to no other, and is what the next is measured by.
  switch_tasklet_func-delivers :
      (t : Driver) × (switch_tasklet_func true s ≡ some t)
      × (t.pre ≡ s.switch_data_tmp.timestamp)
      × ((i u : ℕ) (q : List Sample)
          → get_elem? s.queue_use i ≡ some u
          → get_elem? s.switch_queues i ≡ some q
          → get_elem? t.switch_queues i
            ≡ some (if u == 0 then q else q ++ (s.switch_data_tmp ∷ [])))
  switch_tasklet_func-delivers = (
    accepted s,
    switch_tasklet_func-accepted,
    ground arith,
    λ i u q e f.
        rw queues-accepted
          (get_elem?-broadcast s.switch_data_tmp s.queue_use s.switch_queues i u q e f),
  )

-- Of two presses before the tasklet runs, the first leaves no trace: the handlers share one record.
button_overwritten :
    (us : ℕ → ℕ → ℤ) (a j b k : ℕ) (es : List Event) (s : Driver)
    → run us (button a j ∷ button b k ∷ es) s ≡ run us (button b k ∷ es) s
unfolding run step switch_irq_isr
button_overwritten us a j b k es s = refl

switch_recv-one :
    (t : Driver) (i : ℕ) (d : Sample)
    → get_elem? t.switch_queues i ≡ some (d ∷ [])
    → (t' : Driver) × (switch_recv t (pos i) ≡ some (d.value, t'))
      × (switch_recv t' (pos i) ≡ some (minus_one, t'))
unfolding switch_recv
switch_recv-one t i d e = (
  (take_switch t (pos i) (d ∷ [])).1,
  rw e refl,
  rw (get_elem?-set_self t.switch_queues i [] (lt_of_get_elem? t.switch_queues i (d ∷ []) e)) refl,
)

abbrev pressed : ℕ → ℕ → Driver → Driver
pressed b jiffies s = record s {
  switch_data_tmp = record { value = pos b; timestamp = jiffies };
  switch_pending = false;
}

-- A press that is late enough comes to a process that uses an empty queue: once the interrupt and the tasklet have run,
-- the process receives the number of the button, and then nothing.
pub button-switch_recv :
    (us : ℕ → ℕ → ℤ) (b jiffies i u : ℕ) (s : Driver)
    → s.pre + debounce < jiffies
    → jiffies < 2 ^ 32
    → get_elem? s.queue_use i ≡ some u
    → u ≢ 0
    → get_elem? s.switch_queues i ≡ some []
    → (t t' : Driver) × (run us (button b jiffies ∷ run_switch true ∷ []) s ≡ some t)
      × (switch_recv t (pos i) ≡ some (pos b, t'))
      × (switch_recv t' (pos i) ≡ some (minus_one, t'))
unfolding run step switch_irq_isr
button-switch_recv us b jiffies i u s late small used nz empty =
    let t = accepted (pressed b jiffies s) in
    let ran = switch_tasklet_func-accepted (pressed b jiffies s) (omega arith) late in
    let in_use : (u == 0) ≡ false = ground arith in
    let queued =
      get_elem?-broadcast (pressed b jiffies s).switch_data_tmp s.queue_use s.switch_queues i u []
        used empty in
    let (t', first, then_none) =
      switch_recv-one t i (pressed b jiffies s).switch_data_tmp
        (rw (queues-accepted (pressed b jiffies s) (omega arith) late) (rw in_use at queued)) in
    (t, t', rw ran, first, then_none)
