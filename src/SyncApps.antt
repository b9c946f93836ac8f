-- ===== src/SyncApps.antt =====
-- The programs of synchronization: simple_rwlock_app.c in exercise1 (simple_rcu_app.c in exercise2 and the copies in challenge9 have the
-- same main function) and simple_rculist_app.c in exercise3. Their arguments are numbers, as `atoi` reads them.
mod Tests
use embedded_system_software.Base.{
  ℕ, zero, suc, ◌+◌, ◌-◌, ◌*◌, ◌/◌, ◌%◌, ◌^◌, ◌≤◌, ◌<◌, bit_and, bit_or, ◌≡◌, refl, sym, ap, subst,
  ◌∙◌, ◌≢◌, ◌↔◌, ◌⊎◌, inl, inr, Bool, true, false, not, ◌&&◌, ◌||◌, Option, none, some, List, [],
  ◌∷◌, ◌++◌, map, arith, ltb, leb, ◌==◌, if◌then◌else◌, ltb→lt, lt→ltb, le→ltb_false, ==_iff,
  ==_refl, Bool-cases, Option-cases, ◌>>=◌, length, get_elem?, get_or, set, total-set, take, drop,
  replicate, overlay, All, total, total-put_at, length-append, length-set, get_elem?-set_self,
  get_elem?-set_ne, get_elem?-lt, get_elem?-none, set-set, lt_of_get_elem?, length-overlay,
  length-take, length-drop, length-replicate, take-overlay, take_all, append-nil, overlay-append,
  append_assoc, All-append, All-get_elem?, All-set, ℤ, pos, negsuc, ltb_ℤ, eqb_ℤ, is_negative,
  ok_code, minus_one, minus_two, as_int, as_int-small, at, put_at, length-put_at, at-put_at_self,
  at-put_at_ne, put_at-put_at, All-put_at, All-at, has_flag, strlen, update, update_self, update_ne,
  IsSome, IsSome-value, update-none, some-ne-none,
}

-- A call of the device.
pub data Call : Type 0 where
  reads : Call
  writes : ℕ → Call

pub data Line : Type 0 where
  usage open_failed invalid_operation : Line

-- The exit code, what is printed, and the calls.
pub record Run : Type 0 where
  pub code : ℤ
  pub printed : List Line
  pub calls : List Call

abbrev pub stopped : List Call → Line → Run
stopped calls l = record { code = minus_one; printed = l ∷ []; calls = calls }

abbrev pub before : Call → Run → Run
before c r = record r { calls = c ∷ r.calls }

-- The loop from `i` on, for as many passes as are left.
unfoldable pub iterate : ℤ → ℕ → ℕ → Run
iterate op zero i = record { code = ok_code; printed = []; calls = [] }
iterate op (suc n) i =
    let rest = iterate op n (i + 1) in
    if eqb_ℤ op (pos 1)
    then before reads rest
    else if eqb_ℤ op (pos 2)
    then before (writes i) rest
    else stopped [] invalid_operation

-- No pass when the number is negative.
abbrev pub passes : ℤ → ℕ
passes (pos n) = n
passes (negsuc n) = 0

-- `main`: the number of arguments, the two numbers, and what `open` returns.
unfoldable pub rwlock_main : ℕ → ℤ → ℤ → ℤ → Run
rwlock_main argc op n dev =
    if not (argc == 3)
    then stopped [] usage
    else if is_negative dev
    then stopped [] open_failed
    else iterate op (passes n) 1

-- `main` of simple_rculist_app; the argument of the call is the id.
unfoldable pub rculist_main : ℕ → ℤ → ℕ → ℤ → Run
rculist_main argc op id dev =
    if not (argc == 3)
    then stopped [] usage
    else if is_negative dev
    then stopped [] open_failed
    else if eqb_ℤ op (pos 1) || eqb_ℤ op (pos 2)
    then record {
      code = ok_code;
      printed = [];
      calls = (if eqb_ℤ op (pos 1) then reads else writes id) ∷ [];
    }
    else stopped [] invalid_operation

-- The numbers from `i` on.
abbrev numbers : ℕ → ℕ → List Call
numbers zero i = []
numbers (suc n) i = writes i ∷ numbers n (i + 1)

iterate-writes :
    (n i : ℕ) → iterate (pos 2) n i ≡ record { code = ok_code; printed = []; calls = numbers n i }
unfolding iterate
iterate-writes zero i = refl
iterate-writes (suc n) i = ap (before (writes i)) (iterate-writes n (i + 1))

-- A writer that is told to go round `n` times writes the numbers from 1 to `n`, in their order.
rwlock_main-writes :
    (n : ℕ) (dev : ℤ)
    → is_negative dev ≡ false
    → rwlock_main 3 (pos 2) (pos n) dev
      ≡ record { code = ok_code; printed = []; calls = numbers n 1 }
unfolding rwlock_main
rwlock_main-writes n dev opened = rw opened (iterate-writes n 1)
