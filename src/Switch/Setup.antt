-- ===== src/Switch/Setup.antt =====
-- `switch_init` and `switch_exit` of switch.c: the pins and interrupts that they hold, and the state
-- that they leave.
use embedded_system_software.Base.{
  ℕ, ◌+◌, ◌<◌, ◌≡◌, Bool, true, false, List, [], ◌∷◌, ◌++◌, arith, ◌==◌, if◌then◌else◌, length,
  replicate, ℤ, pos, eqb_ℤ, is_negative, ok_code, minus_one,
}
use embedded_system_software.Kernel.{Heap, no_calls}
use embedded_system_software.Switch.{Driver, Sample, queue_num, free_nodes}

-- The state of a loaded module: the static initialisers and the list heads.
unfoldable pub initial : Driver
initial = record {
  switch_queues = replicate queue_num [];
  ultrasonic_queues = replicate queue_num [];
  queue_use = replicate queue_num 0;
  pre = 0;
  echo_valid_flag = 3;
  echo_start = 0;
  echo_stop = 0;
  switch_data_tmp = record { value = pos 0; timestamp = 0 };
  ultrasonic_data_tmp = record { value = pos 0; timestamp = 0 };
  switch_pending = false;
  ultrasonic_pending = false;
  trigger = [];
  heap = no_calls;
}

-- What the module holds of the kernel: pins, interrupt lines (by their index in `irq_num`), and
-- whether the device is registered.
pub record Holdings : Type 0 where
  pub gpios : List ℕ
  pub irqs : List ℕ
  pub device : Bool

-- SWITCH1, SWITCH2, SWITCH3, ULTRA_TRIG and ULTRA_ECHO
abbrev pub pins : List ℕ
pins = 20 ∷ 21 ∷ 22 ∷ 17 ∷ 18 ∷ []

-- `free_irq` of a line: one that is not held stays so.
abbrev pub release : ℕ → List ℕ → List ℕ
release i [] = []
release i (j ∷ js) = if i == j then release i js else j ∷ release i js

-- The four requests in order, with what `request_irq` returns for those that are left. A refused
-- request ends them, after a `free_irq` of the line that was refused.
abbrev pub request_irqs : ℕ → List ℤ → List ℕ → Bool × List ℕ
request_irqs i [] held = (true, held)
request_irqs i (ret ∷ rets) held =
    let rest = request_irqs (i + 1) rets (held ++ (i ∷ [])) in
    if eqb_ℤ ret (pos 0) then rest else (false, release i held)

-- The arguments are what the four `request_irq` and `cdev_add` return.
unfoldable pub switch_init : ℤ → ℤ → ℤ → ℤ → ℤ → ℤ × Holdings
switch_init r0 r1 r2 r3 added =
    let (granted, held) = request_irqs 0 (r0 ∷ r1 ∷ r2 ∷ r3 ∷ []) [] in
    if granted
    then (if is_negative added
        then (minus_one, record { gpios = pins; irqs = held; device = false })
        else (ok_code, record { gpios = pins; irqs = held; device = true }))
    else (minus_one, record { gpios = pins; irqs = held; device = false })

-- `gpio_free` of the five pins, in their order.
abbrev pub release_all : List ℕ → List ℕ → List ℕ
release_all [] held = held
release_all (i ∷ is) held = release_all is (release i held)

free_lists : List (List Sample) → Heap → Heap
free_lists [] h = h
free_lists (q ∷ qs) h = free_lists qs (free_nodes q h)

unfoldable pub switch_exit : Holdings → Driver → Holdings × Heap
unfolding free_lists
switch_exit g s = (
  record {
    gpios = release_all pins g.gpios;
    irqs = release_all (0 ∷ 1 ∷ 2 ∷ 3 ∷ []) g.irqs;
    device = false;
  },
  free_lists s.ultrasonic_queues (free_lists s.switch_queues s.heap),
)

-- Unloading a module that was loaded gives back all that it held.
switch_exit-switch_init :
    (r0 r1 r2 r3 added : ℤ) (s : Driver)
    → (switch_init r0 r1 r2 r3 added).0 ≡ ok_code
    → (switch_exit (switch_init r0 r1 r2 r3 added).1 s).0
      ≡ record { gpios = []; irqs = []; device = false }
unfolding switch_init switch_exit
switch_exit-switch_init r0 r1 r2 r3 added s h = ground arith

-- When `switch_init` fails, all five pins stay requested, and so do the interrupt lines whose
-- requests came before the refused one: the module is not loaded, and nobody gives them back.
switch_init-leaks :
    (r0 r1 r2 r3 added : ℤ)
    → (switch_init r0 r1 r2 r3 added).0 ≡ minus_one
    → let g = (switch_init r0 r1 r2 r3 added).1 in
      (g.gpios ≡ pins) × (eqb_ℤ r0 (pos 0) ≡ true → 0 < length g.irqs)
unfolding switch_init
switch_init-leaks r0 r1 r2 r3 added h = ground arith
