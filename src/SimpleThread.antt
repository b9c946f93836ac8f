-- ===== src/SimpleThread.antt =====
-- deferrable_functions/exercise2/simple_kthread.c: a thread that prints the time every second until it is told to stop.
mod Tests
use mathlib.Core.Option
use embedded_system_software.Base.{
  ℕ, zero, suc, ◌+◌, ◌-◌, ◌*◌, ◌/◌, ◌%◌, ◌^◌, ◌≤◌, ◌<◌, bit_and, bit_or, ◌≡◌, refl, sym, ap, subst,
  ◌∙◌, ◌≢◌, ◌↔◌, ◌⊎◌, inl, inr, Bool, true, false, not, ◌&&◌, ◌||◌, Option, none, some, List, [],
  ◌∷◌, ◌++◌, map, arith, ltb, leb, ◌==◌, if◌then◌else◌, ltb→lt, lt→ltb, le→ltb_false, ==_iff,
  ==_refl, Bool-cases, Option-cases, ◌>>=◌, length, get_elem?, get_or, set, total-set, take, drop,
  replicate, overlay, All, total, total-put_at, length-append, length-set, get_elem?-set_self,
  get_elem?-set_ne, get_elem?-lt, get_elem?-none, set-set, lt_of_get_elem?, length-overlay,
  length-take, length-drop, length-replicate, take-overlay, take_all, append-nil, overlay-append,
  append_assoc, All-append, All-get_elem?, All-set, ℤ, pos, negsuc, ltb_ℤ, eqb_ℤ, is_negative,
  ok_code, minus_one, minus_two, as_int, as_int-small, at, put_at, length-put_at, at-put_at_self,
  at-put_at_ne, put_at-put_at, All-put_at, All-at, has_flag, strlen, update, update_self, update_ne,
  IsSome, IsSome-value, update-none, some-ne-none,
}

-- `simple_kthread_func` on what it meets in each pass: whether it is to stop, and the time; what it prints. `none` when it goes on.
unfoldable pub simple_kthread_func : List (Bool × ℕ) → Option (List ℕ)
simple_kthread_func [] = none
simple_kthread_func ((stop, jiffies) ∷ passes) =
    let rest = simple_kthread_func passes in
    if stop then some [] else Option.map (λ lines. jiffies ∷ lines) rest

-- `my_kthread`: whether the pointer is other than NULL, and how often the kernel was told to create, start and stop the thread.
pub record Module : Type 0 where
  pub my_kthread : Bool
  pub started : ℕ
  pub stopped : ℕ

-- `created` is whether `kthread_create` gives a thread.
unfoldable pub simple_kthread_init : Bool → ℤ × Module
simple_kthread_init created =
    if not created
    then (ok_code, record { my_kthread = false; started = 0; stopped = 0 })
    else (ok_code, record { my_kthread = true; started = 1; stopped = 0 })

unfoldable pub simple_kthread_exit : Module → Module
simple_kthread_exit s = if s.my_kthread then record s { stopped = s.stopped + 1 } else s

-- The times of the passes before it is told to stop.
abbrev running : List ℕ → List (Bool × ℕ)
running [] = []
running (j ∷ js) = (false, j) ∷ running js

-- The thread prints the time in each pass before it is told to stop, and ends then.
simple_kthread_func-running :
    (js : List ℕ) (j : ℕ) (passes : List (Bool × ℕ))
    → simple_kthread_func (running js ++ ((true, j) ∷ passes)) ≡ some js
unfolding simple_kthread_func
simple_kthread_func-running [] j passes = refl
simple_kthread_func-running (k ∷ js) j passes = rw (simple_kthread_func-running js j passes) refl

-- What is started is stopped, once, whether the thread could be created or not.
exit-init :
    (created : Bool)
    → let s = simple_kthread_exit (simple_kthread_init created).1 in s.started ≡ s.stopped
unfolding simple_kthread_init simple_kthread_exit
exit-init true = refl
exit-init false = refl
