-- ===== src/Scheduling.antt =====
-- The programs of cpu_scheduling: what they ask of the kernel about their own process, what they print, and the code with
-- which each of their processes ends. The kernel's calls are parameters, on a state of its own.
pub mod Delay
pub mod Settled
mod Tests
use embedded_system_software.Base.{
  ℕ, zero, suc, ◌+◌, ◌-◌, ◌*◌, ◌/◌, ◌%◌, ◌^◌, ◌≤◌, ◌<◌, bit_and, bit_or, ◌≡◌, refl, sym, ap, subst,
  ◌∙◌, ◌≢◌, ◌↔◌, ◌⊎◌, inl, inr, Bool, true, false, not, ◌&&◌, ◌||◌, Option, none, some, List, [],
  ◌∷◌, ◌++◌, map, arith, ltb, leb, ◌==◌, if◌then◌else◌, ltb→lt, lt→ltb, le→ltb_false, ==_iff,
  ==_refl, Bool-cases, Option-cases, ◌>>=◌, length, get_elem?, get_or, total-set, drop, replicate,
  overlay, All, total, total-put_at, length-append, length-set, get_elem?-set_self,
  get_elem?-set_ne, get_elem?-lt, get_elem?-none, set-set, lt_of_get_elem?, length-overlay,
  length-take, length-drop, length-replicate, take-overlay, take_all, append-nil, overlay-append,
  append_assoc, All-append, All-get_elem?, All-set, ℤ, pos, negsuc, ltb_ℤ, eqb_ℤ, is_negative,
  ok_code, minus_one, minus_two, as_int, as_int-small, put_at, length-put_at, at-put_at_self,
  at-put_at_ne, put_at-put_at, All-put_at, All-at, has_flag, strlen, update, update_self, update_ne,
  IsSome, IsSome-value, update-none, some-ne-none,
}

-- `struct sched_attr` of sched_deadline.c.
pub record Attr : Type 0 where
  pub size : ℕ
  pub sched_policy : ℕ
  pub sched_flags : ℕ
  pub sched_nice : ℕ
  pub sched_priority : ℕ
  pub sched_runtime : ℕ
  pub sched_deadline : ℕ
  pub sched_period : ℕ

-- The system calls by which a process sees and changes how it is scheduled, with the result of each, and `fork`: whether
-- there is a child, and the state of the caller and of the child.
pub record Os (S : Type 0) : Type 0 where
  pub sched_setaffinity : ℕ → S → ℤ × S
  pub sched_getaffinity : S → ℤ × ℕ
  pub sched_setscheduler : ℤ → ℤ → S → ℤ × S
  pub sched_getscheduler : S → ℤ
  pub sched_setparam : ℤ → S → ℤ × S
  pub sched_get_priority_min : ℤ → ℤ
  pub sched_get_priority_max : ℤ → ℤ
  pub sched_setattr : Attr → S → ℤ × S
  pub sched_getattr : S → ℤ × Attr
  pub fork : S → Bool × S × S

abbrev pub sched_other : ℤ
sched_other = pos 0

abbrev pub sched_fifo : ℤ
sched_fifo = pos 1

abbrev pub sched_rr : ℤ
sched_rr = pos 2

abbrev pub sched_deadline : ℤ
sched_deadline = pos 6

-- `CPU_ZERO` and then `CPU_SET` of CPU 0.
abbrev pub cpu_0 : ℕ
cpu_0 = 1

pub data Line : Type 0 where
  affinity_failed scheduler_failed get_failed param_failed : Line
  get_attr_failed set_attr_failed get_affinity_failed : Line
  default_used fifo_used rr_used deadline_used : Line
  parent_low child_high process : Line
  affinity : List ℕ → Line

-- A process at its end: its exit code, what it has printed since it is there, and its state.
pub record Ended (S : Type 0) : Type 0 where
  pub code : ℕ
  pub printed : List Line
  pub state : S

-- `printf` and `exit(1)`.
abbrev pub fail : {S : Type 0} → List Line → Line → S → Ended S
fail before l s = record { code = 1; printed = before ++ (l ∷ []); state = s }

abbrev pub return_0 : {S : Type 0} → List Line → S → Ended S
return_0 lines s = record { code = 0; printed = lines; state = s }

-- The switch over what `sched_getscheduler` gives.
unfoldable pub scheduler_used : ℤ → Option Line
scheduler_used p =
    if eqb_ℤ p sched_other
    then some default_used
    else if eqb_ℤ p sched_fifo
    then some fifo_used
    else if eqb_ℤ p sched_rr
    then some rr_used
    else none

-- The part that both programs begin with: the end of the process, or the line printed and the state that it goes on with.
unfoldable pub set_up : {S : Type 0} → Os S → ℤ → ℤ → S → Ended S ⊎ (Line × S)
set_up os policy priority s =
    let t = os.sched_setaffinity cpu_0 s in
    let u = os.sched_setscheduler policy priority t.1 in
    if not (eqb_ℤ t.0 ok_code)
    then inl (fail [] affinity_failed t.1)
    else if eqb_ℤ u.0 minus_one
    then inl (fail [] scheduler_failed u.1)
    else elim (scheduler_used (os.sched_getscheduler u.1)) [
      | none ↦ inl (fail [] get_failed u.1)
      | some l ↦ inr (l, u.1)
    ]

-- The child of sched_fifo.c.
abbrev pub fifo_child : {S : Type 0} → Os S → S → Ended S
fifo_child os s =
    let t = os.sched_setparam (os.sched_get_priority_max sched_fifo) s in
    if not (eqb_ℤ t.0 ok_code)
    then fail (child_high ∷ []) param_failed t.1
    else return_0 (child_high ∷ []) t.1

-- `main` of sched_fifo.c: every process that it makes, the first one first. Without a child the caller goes on as the parent.
unfoldable pub fifo_main : {S : Type 0} → Os S → S → List (Ended S)
fifo_main os s = elim (set_up os sched_fifo (os.sched_get_priority_min sched_fifo) s) [
  | inl e ↦ e ∷ []
  | inr (l, u) ↦
      let f = os.fork u in
      return_0 (l ∷ parent_low ∷ []) f.1 ∷ (if f.0 then fifo_child os f.2 ∷ [] else [])
]

-- The child of sched_rr.c, which forks again.
abbrev pub rr_child : {S : Type 0} → Os S → S → List (Ended S)
rr_child os s = let f = os.fork s in return_0 [] f.1 ∷ (if f.0 then return_0 [] f.2 ∷ [] else [])

-- `main` of sched_rr.c.
unfoldable pub rr_main : {S : Type 0} → Os S → S → List (Ended S)
rr_main os s = elim (set_up os sched_rr (os.sched_get_priority_max sched_rr) s) [
  | inl e ↦ e ∷ []
  | inr (l, u) ↦ let f = os.fork u in return_0 (l ∷ []) f.1 ∷ (if f.0 then rr_child os f.2 else [])
]

abbrev pub deadline_attr : Attr → Attr
deadline_attr a = record a {
  sched_policy = 6;
  sched_runtime = 2000000;
  sched_deadline = 10000000;
  sched_period = 10000000;
}

abbrev pub deadline_line : ℤ → Option Line
deadline_line p = if eqb_ℤ p sched_deadline then some deadline_used else scheduler_used p

-- `main` of sched_deadline.c.
unfoldable pub deadline_main : {S : Type 0} → Os S → S → Ended S
deadline_main os s =
    let a = os.sched_getattr s in
    let t = os.sched_setattr (deadline_attr a.1) s in
    if not (eqb_ℤ a.0 ok_code)
    then fail [] get_attr_failed s
    else if eqb_ℤ t.0 minus_one
    then fail (process ∷ []) set_attr_failed t.1
    else elim (deadline_line (os.sched_getscheduler t.1)) [
      | none ↦ fail (process ∷ []) get_failed t.1
      | some l ↦ return_0 (process ∷ l ∷ []) t.1
    ]

-- The bits that the loop of `print_affinity` prints, from CPU `i` on.
unfoldable pub affinity_bits : ℕ → ℕ → List ℕ
affinity_bits zero mask = []
affinity_bits (suc n) mask = (mask % 2) ∷ affinity_bits n (mask / 2)

-- `print_affinity`, for the CPUs that `sysconf` counts.
unfoldable pub print_affinity : {S : Type 0} → Os S → ℕ → S → Option Line
print_affinity os ncores s =
    let t = os.sched_getaffinity s in
    if not (eqb_ℤ t.0 ok_code) then none else some (affinity (affinity_bits ncores t.1))

-- `main` of affinity.c.
unfoldable pub affinity_main : {S : Type 0} → Os S → ℕ → S → Ended S
affinity_main os ncores s =
    let t = os.sched_setaffinity cpu_0 s in
    elim (print_affinity os ncores s) [
      | none ↦ fail [] get_affinity_failed s
      | some first ↦
          if not (eqb_ℤ t.0 ok_code)
          then fail (first ∷ []) affinity_failed t.1
          else elim (print_affinity os ncores t.1) [
            | none ↦ fail (first ∷ []) get_affinity_failed t.1
            | some second ↦ return_0 (first ∷ second ∷ []) t.1
          ]
    ]
