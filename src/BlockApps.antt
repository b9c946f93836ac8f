-- ===== src/BlockApps.antt =====
-- The programs of blocking_io/exercise1 (simple_block_1_reader.c, simple_block_1_writer.c) and exercise2 (simple_block_2_reader.c,
-- simple_block_2_writer.c). Their inputs are numbers, as `scanf` reads them; the result of a call is an argument. `none` is
-- the use of a variable that has no value.
mod Tests
use mathlib.Core.Option
use embedded_system_software.Base.{
  ℕ, zero, suc, ◌+◌, ◌-◌, ◌*◌, ◌/◌, ◌%◌, ◌^◌, ◌≤◌, ◌<◌, bit_and, bit_or, ◌≡◌, refl, sym, ap, subst,
  ◌∙◌, ◌≢◌, ◌↔◌, ◌⊎◌, inl, inr, Bool, true, false, not, ◌&&◌, ◌||◌, Option, none, some, List, [],
  ◌∷◌, ◌++◌, map, arith, ltb, leb, ◌==◌, if◌then◌else◌, ltb→lt, lt→ltb, le→ltb_false, ==_iff,
  ==_refl, Bool-cases, Option-cases, ◌>>=◌, length, get_elem?, get_or, set, total-set, take, drop,
  replicate, overlay, All, total, total-put_at, length-append, length-set, get_elem?-set_self,
  get_elem?-set_ne, get_elem?-lt, get_elem?-none, set-set, lt_of_get_elem?, length-overlay,
  length-take, length-drop, length-replicate, take-overlay, take_all, append-nil, overlay-append,
  append_assoc, All-append, All-get_elem?, All-set, ℤ, pos, negsuc, ltb_ℤ, eqb_ℤ, is_negative,
  ok_code, minus_one, minus_two, as_int, as_int-small, at, put_at, length-put_at, at-put_at_self,
  at-put_at_ne, put_at-put_at, All-put_at, All-at, has_flag, strlen, update, update_self, update_ne,
  IsSome, IsSome-value, update-none, some-ne-none,
}

-- The commands of both devices.
pub data Call : Type 0 where
  wq wq_interruptible wq_interruptible_timeout wq_ex : Call
  wq_wake_up wq_wake_up_all : ℤ → Call

pub data Line : Type 0 where
  prompt open_failed : Line
  consumed produced : ℤ → Line

-- What is printed and what is called; each call is the last thing but one line.
pub record Run : Type 0 where
  pub printed : List Line
  pub calls : List Call

abbrev pub unopened : List Line → Run
unopened lines = record { printed = lines ++ (open_failed ∷ []); calls = [] }

-- `ret` is what `ioctl` gives for the call.
abbrev pub called : List Line → (ℤ → Line) → (Call → ℤ) → Call → Run
called lines line ret c = record { printed = lines ++ (line (ret c) ∷ []); calls = c ∷ [] }

-- The switch of simple_block_1_reader.
abbrev pub wait_of : ℤ → Option Call
wait_of cmd =
    if eqb_ℤ cmd (pos 1)
    then some wq
    else if eqb_ℤ cmd (pos 2)
    then some wq_interruptible
    else if eqb_ℤ cmd (pos 3)
    then some wq_interruptible_timeout
    else none

unfoldable pub reader_1 : (Call → ℤ) → ℤ → ℤ → Option Run
reader_1 ret cmd fd =
    if is_negative fd
    then some (unopened (prompt ∷ []))
    else Option.map (called (prompt ∷ []) consumed ret) (wait_of cmd)

unfoldable pub writer_1 : (Call → ℤ) → ℤ → ℤ → Run
writer_1 ret value fd =
    if is_negative fd
    then unopened (prompt ∷ [])
    else called (prompt ∷ []) produced ret (wq_wake_up value)

unfoldable pub reader_2 : (Call → ℤ) → ℤ → ℤ → Option Run
reader_2 ret cmd fd =
    if is_negative fd
    then some (unopened (prompt ∷ []))
    else if eqb_ℤ cmd (pos 1)
    then some (called (prompt ∷ []) consumed ret wq)
    else if eqb_ℤ cmd (pos 2)
    then some (called (prompt ∷ []) consumed ret wq_ex)
    else none

unfoldable pub writer_2 : (Call → ℤ) → ℤ → ℤ → ℤ → Option Run
writer_2 ret cmd value fd =
    if is_negative fd
    then some (unopened (prompt ∷ prompt ∷ []))
    else if eqb_ℤ cmd (pos 1)
    then some (called (prompt ∷ prompt ∷ []) produced ret (wq_wake_up value))
    else if eqb_ℤ cmd (pos 2)
    then some (called (prompt ∷ prompt ∷ []) produced ret (wq_wake_up_all value))
    else none

is_known : ℤ → Bool
is_known cmd = eqb_ℤ cmd (pos 1) || eqb_ℤ cmd (pos 2)

-- With a command of the menu the consumer of exercise2 ends without the use of a variable that has no value.
reader_2-defined :
    (ret : Call → ℤ) (cmd fd : ℤ) → is_known cmd ≡ true → IsSome (reader_2 ret cmd fd)
unfolding reader_2 is_known
reader_2-defined ret cmd fd known = ground arith
