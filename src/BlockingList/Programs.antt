-- ===== src/BlockingList/Programs.antt =====
-- The two programs of the blocking message list, ch4_mod_201711395_writer.c and ch4_mod_201711395_reader.c in
-- blocking_io/challenge4; the struct and its texts are those of MsgList.Programs. A reader has its reply when it has a message to take,
-- at once or after it has slept. `none` is undefined behaviour of a program or a fault.
pub mod Exchange
mod Tests
use embedded_system_software.Base.{
  ℕ, zero, suc, ◌+◌, ◌-◌, ◌*◌, ◌/◌, ◌%◌, ◌^◌, ◌≤◌, ◌<◌, bit_and, bit_or, ◌≡◌, refl, sym, ap, subst,
  ◌∙◌, ◌≢◌, ◌↔◌, ◌⊎◌, inl, inr, Bool, true, false, not, ◌&&◌, ◌||◌, Option, none, some, List, [],
  ◌∷◌, ◌++◌, map, arith, ltb, leb, ◌==◌, if◌then◌else◌, ltb→lt, lt→ltb, le→ltb_false, ==_iff,
  ==_refl, Bool-cases, Option-cases, ◌>>=◌, length, get_elem?, get_or, set, total-set, take, drop,
  replicate, overlay, All, total, total-put_at, length-append, length-set, get_elem?-set_self,
  get_elem?-set_ne, get_elem?-lt, get_elem?-none, set-set, lt_of_get_elem?, length-overlay,
  length-take, length-drop, length-replicate, take-overlay, take_all, append-nil, overlay-append,
  append_assoc, All-append, All-get_elem?, All-set, ℤ, pos, negsuc, ltb_ℤ, eqb_ℤ, is_negative,
  ok_code, minus_one, minus_two, as_int, as_int-small, at, put_at, length-put_at, at-put_at_self,
  at-put_at_ne, put_at-put_at, All-put_at, All-at, has_flag, strlen, update, update_self, update_ne,
  IsSome, IsSome-value, update-none, some-ne-none,
}
use mathlib.Core.Option
use embedded_system_software.Kernel.{Kernel}
use embedded_system_software.Libc.{Libc}
use embedded_system_software.MsgList.{Msg, str_of}
use embedded_system_software.MsgList.Programs.{text_of, typed_message}
use embedded_system_software.BlockingList.{Driver, ch4_write, take_from}

-- What the programs print, without the numbers of the processes.
pub data Line : Type 0 where
  prompt open_failed : Line
  failed : List ℕ → ℤ → Line
  succeeded : List ℕ → Line
  not_written : List ℕ → ℤ → Line
  received : List ℕ → Line

abbrev pub written : ℤ → List ℕ → Line
written ret text = if eqb_ℤ ret ok_code then succeeded text else failed text ret

-- `main` of the writer; the arguments before the input are the kernel and what `open` returns.
unfoldable pub writer_main : Libc → Kernel → ℤ → List ℕ → Driver → Option (List Line × Driver)
writer_main c k dev input s = do
  user ← typed_message input
  if is_negative dev then some (prompt ∷ open_failed ∷ [], s) else do
    t ← ch4_write k user s
    text ← text_of (str_of user)
    some (prompt ∷ written (c.result t.0) text ∷ [], t.1)

-- What the reader prints of the result and of its struct.
abbrev pub read_line : ℤ → List ℕ → Line
read_line ret text = if ltb_ℤ ok_code ret then not_written text ret else received text

-- `main` of the reader with a message to take; `user` is what the stack holds in `user_str`.
unfoldable pub reader_main : Libc → Kernel → ℤ → List ℕ → Driver → Option (List Line × Driver)
reader_main c k dev user s = if is_negative dev then some (open_failed ∷ [], s) else do
  t ← take_from k user s
  text ← text_of (str_of t.1)
  some (read_line (c.result t.0) text ∷ [], t.2)
