-- ===== src/WorkQueue/Tests.antt =====
-- Runs of the work queue of simple_workqueue.c.
use embedded_system_software.Base.{◌≡◌, refl, true, false, none, some, List, [], ◌∷◌}
use embedded_system_software.WorkQueue.{
  Module, my_work_func, work, simple_workqueue_isr, simple_workqueue_init, simple_workqueue_exit,
  Event, interrupt, worker, step, run,
}
use embedded_system_software.WorkQueue.Balance.{exit-balance}

abbrev history : List Event
history =
    interrupt true
    ∷ interrupt false
    ∷ interrupt true
    ∷ worker
    ∷ worker
    ∷ worker
    ∷ interrupt true
    ∷ []

exit-balance_example :
    (s : Module) × (simple_workqueue_exit (run history (simple_workqueue_init true true).1)
      ≡ some s)
    × (s.queued ≡ 0)
    × (s.heap.kmallocs ≡ s.heap.kfrees)
    × (s.heap.kmallocs ≡ s.printed)
exit-balance_example = exit-balance true history

-- One item is still queued after this history, and three were allocated.
history-queued :
    ((run history (simple_workqueue_init true true).1).queued ≡ 1)
    × ((run history (simple_workqueue_init true true).1).heap.kmallocs ≡ 3)
unfolding run step work my_work_func simple_workqueue_isr
history-queued = (refl, refl)

-- A module that got no queue is loaded all the same, and its removal uses NULL.
exit-no_queue : simple_workqueue_exit (simple_workqueue_init false true).1 ≡ none
exit-no_queue = refl
