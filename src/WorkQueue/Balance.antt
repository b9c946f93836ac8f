-- ===== src/WorkQueue/Balance.antt =====
-- Every item of work is freed once.
use embedded_system_software.Base.{
  ℕ, zero, suc, ◌+◌, ◌≡◌, refl, ◌∙◌, inl, inr, Bool, true, false, some, List, [], ◌∷◌, arith, ◌==◌,
  Bool-cases,
}
use embedded_system_software.Actuator.{gpio_free}
use embedded_system_software.WorkQueue.{
  Module, my_work_func, work, simple_workqueue_isr, free_irq, simple_workqueue_init, flush,
  simple_workqueue_exit, Event, interrupt, worker, step, run,
}

-- Every allocation is queued or freed, and every item that is freed has run.
pub record IsBalanced (s : Module) : Type 0 where
  pub allocated : s.heap.kmallocs ≡ s.heap.kfrees + s.queued
  pub run_once : s.heap.kfrees ≡ s.printed

work-IsBalanced : (s : Module) → IsBalanced s → IsBalanced (work s)
unfolding work my_work_func
work-IsBalanced s h = elim (Bool-cases (s.queued == 0)) [
  | inl e ↦ rw e h
  | inr e ↦
      rw e
        (record { allocated = ground (arith, h.allocated); run_once = ground (arith, h.run_once) })
]

step-IsBalanced : (e : Event) (s : Module) → IsBalanced s → IsBalanced (step e s)
unfolding step simple_workqueue_isr
step-IsBalanced (interrupt memory) s h = record {
  allocated = ground (arith, h.allocated);
  run_once = ground (arith, h.run_once);
}
step-IsBalanced worker s h = work-IsBalanced s h

run-IsBalanced : (es : List Event) (s : Module) → IsBalanced s → IsBalanced (run es s)
unfolding run
run-IsBalanced [] s h = h
run-IsBalanced (e ∷ es) s h = run-IsBalanced es (step e s) (step-IsBalanced e s h)

flush-queued :
    (n : ℕ) (s : Module)
    → IsBalanced s
    → s.queued ≡ n
    → IsBalanced (flush n s) × ((flush n s).queued ≡ 0)
unfolding flush work my_work_func
flush-queued zero s h e = (h, e)
flush-queued (suc n) s h e = flush-queued n (work s) (work-IsBalanced s h) (ground arith)

step-my_wq : (e : Event) (s : Module) → (step e s).my_wq ≡ s.my_wq
unfolding step work my_work_func simple_workqueue_isr
step-my_wq (interrupt memory) s = ground arith
step-my_wq worker s = ground arith

run-my_wq : (es : List Event) (s : Module) → (run es s).my_wq ≡ s.my_wq
unfolding run
run-my_wq [] s = refl
run-my_wq (e ∷ es) s = run-my_wq es (step e s) ∙ step-my_wq e s

exit-empties :
    (t : Module)
    → t.my_wq ≡ true
    → IsBalanced t
    → (s : Module) × (simple_workqueue_exit t ≡ some s)
      × (s.queued ≡ 0)
      × (s.heap.kmallocs ≡ s.heap.kfrees)
      × (s.heap.kmallocs ≡ s.printed)
exit-empties t there h =
    let u : Module = record (free_irq t) { gpios = gpio_free 17 t.gpios } in
    let (b, empty) =
      flush-queued t.queued u (record { allocated = h.allocated; run_once = h.run_once }) refl in
    (
      record (flush t.queued u) { my_wq = false },
      rw there refl,
      empty,
      omega (arith, b.allocated),
      omega (arith, b.allocated, b.run_once),
    )

init-IsBalanced :
    (granted : Bool)
    → IsBalanced (simple_workqueue_init true granted).1
      × ((simple_workqueue_init true granted).1.my_wq ≡ true)
init-IsBalanced true = (record { allocated = refl; run_once = refl }, refl)
init-IsBalanced false = (record { allocated = refl; run_once = refl }, refl)

-- When the work queue could be created, whatever interrupts come, with memory or without, and whenever the worker runs, the removal of the module finds the
-- queue, runs what is queued, and leaves no item allocated and no date unprinted.
pub exit-balance :
    (granted : Bool) (es : List Event)
    → (s : Module) × (simple_workqueue_exit (run es (simple_workqueue_init true granted).1)
        ≡ some s)
      × (s.queued ≡ 0)
      × (s.heap.kmallocs ≡ s.heap.kfrees)
      × (s.heap.kmallocs ≡ s.printed)
exit-balance granted es =
    let s = (simple_workqueue_init true granted).1 in
    let (b, there) = init-IsBalanced granted in
    exit-empties (run es s) (run-my_wq es s ∙ there) (run-IsBalanced es s b)
