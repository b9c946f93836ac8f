-- ===== src/Scheduling/Tests.antt =====
-- The scheduling programs on a small kernel with one process, and a clock.
use embedded_system_software.Base.{
  ℕ, ◌≡◌, refl, some, [], ◌∷◌, arith, ℤ, pos, ok_code, minus_one, true, Bool, if◌then◌else◌, false,
}
use embedded_system_software.Scheduling.{
  Os, Attr, fifo_main, rr_main, deadline_main, affinity_main, set_up, scheduler_used, affinity,
  fifo_used, parent_low, child_high, rr_used, process, set_attr_failed, scheduler_failed,
  affinity_bits, print_affinity,
}
use embedded_system_software.Scheduling.Settled.{Seen}
use embedded_system_software.Scheduling.Delay.{IsRunning, Ends, delay, delay-returns}

-- The policy, the priority and the CPUs.
abbrev State : Type 0
State = ℤ × ℤ × ℕ

abbrev no_attr : Attr
no_attr = record {
  size = 48;
  sched_policy = 0;
  sched_flags = 0;
  sched_nice = 0;
  sched_priority = 0;
  sched_runtime = 0;
  sched_deadline = 0;
  sched_period = 0;
}

-- A kernel that grants all but the attributes of a deadline, or for one that is not root no scheduler.
abbrev small : Bool → Os State
small root = record {
  sched_setaffinity = λ m s. (ok_code, (s.0, s.1, m));
  sched_getaffinity = λ s. (ok_code, s.2);
  sched_setscheduler = λ p q s. if root then (ok_code, (p, q, s.2)) else (minus_one, s);
  sched_getscheduler = λ s. s.0;
  sched_setparam = λ q s. (ok_code, (s.0, q, s.2));
  sched_get_priority_min = λ p. pos 1;
  sched_get_priority_max = λ p. pos 99;
  sched_setattr = λ a s. (minus_one, s);
  sched_getattr = λ s. (ok_code, no_attr);
  fork = λ s. (true, s, s);
}

abbrev seen : Seen State
seen s = s

abbrev fresh : State
fresh = (pos 0, pos 0, 15)

fifo_main-runs :
    fifo_main (small true) fresh
    ≡ record { code = 0; printed = fifo_used ∷ parent_low ∷ []; state = (pos 1, pos 1, 1) }
      ∷ record { code = 0; printed = child_high ∷ []; state = (pos 1, pos 99, 1) }
      ∷ []
unfolding fifo_main set_up scheduler_used
fifo_main-runs = refl

fifo_main-not_root :
    fifo_main (small false) fresh
    ≡ record { code = 1; printed = scheduler_failed ∷ []; state = (pos 0, pos 0, 1) } ∷ []
unfolding fifo_main set_up
fifo_main-not_root = refl

rr_main-runs :
    rr_main (small true) fresh
    ≡ record { code = 0; printed = rr_used ∷ []; state = (pos 2, pos 99, 1) }
      ∷ record { code = 0; printed = []; state = (pos 2, pos 99, 1) }
      ∷ record { code = 0; printed = []; state = (pos 2, pos 99, 1) }
      ∷ []
unfolding rr_main set_up scheduler_used
rr_main-runs = refl

deadline_main-refused :
    deadline_main (small true) fresh
    ≡ record { code = 1; printed = process ∷ set_attr_failed ∷ []; state = fresh }
unfolding deadline_main
deadline_main-refused = refl

affinity_main-runs : affinity_main (small true) 4 fresh ≡ record {
  code = 0;
  printed = affinity (1 ∷ 1 ∷ 1 ∷ 1 ∷ []) ∷ affinity (1 ∷ 0 ∷ 0 ∷ 0 ∷ []) ∷ [];
  state = (pos 0, pos 0, 1);
}
unfolding affinity_main print_affinity affinity_bits
affinity_main-runs = refl

-- A tick with every reading.
clock-IsRunning : IsRunning 1 (λ i. i)
clock-IsRunning = record { forward = λ i. omega arith; moves = λ i. omega arith }

delay-returns_example : (j : ℕ) × (delay 6 (λ i. i) 5 ≡ some j) × Ends (λ i. i) 0 5 1 j
delay-returns_example = delay-returns 1 (λ i. i) 5 6 clock-IsRunning (omega arith)
