-- ===== src/MsgList/Programs.antt =====
-- The two programs of the message list, ch3_mod_201711395_writer.c and ch3_mod_201711395_reader.c in
-- basic_kernel_functions/challenge3, over the calls of MsgList. `none` is undefined behaviour of a program or a fault.
pub mod Words
mod Tests
use embedded_system_software.Base.{
  ℕ, zero, suc, ◌+◌, ◌-◌, ◌*◌, ◌/◌, ◌%◌, ◌^◌, ◌≤◌, ◌<◌, bit_and, bit_or, ◌≡◌, refl, sym, ap, subst,
  ◌∙◌, ◌≢◌, ◌↔◌, ◌⊎◌, inl, inr, Bool, true, false, not, ◌&&◌, ◌||◌, Option, none, some, List, [],
  ◌∷◌, ◌++◌, map, arith, ltb, leb, ◌==◌, if◌then◌else◌, ltb→lt, lt→ltb, le→ltb_false, ==_iff,
  ==_refl, Bool-cases, Option-cases, ◌>>=◌, length, get_elem?, get_or, set, total-set, take, drop,
  replicate, overlay, All, total, total-put_at, length-append, length-set, get_elem?-set_self,
  get_elem?-set_ne, get_elem?-lt, get_elem?-none, set-set, lt_of_get_elem?, length-overlay,
  length-take, length-drop, length-replicate, take-overlay, take_all, append-nil, overlay-append,
  append_assoc, All-append, All-get_elem?, All-set, ℤ, pos, negsuc, ltb_ℤ, eqb_ℤ, is_negative,
  ok_code, minus_one, minus_two, as_int, as_int-small, at, put_at, length-put_at, at-put_at_self,
  at-put_at_ne, put_at-put_at, All-put_at, All-at, has_flag, strlen, update, update_self, update_ne,
  IsSome, IsSome-value, update-none, some-ne-none,
}
use mathlib.Core.Option
use embedded_system_software.Kernel.{Kernel}
use embedded_system_software.Libc.{Libc}
use embedded_system_software.MsgList.{Msg, buf_size, str_of, Driver, read, write, ch3_ioctl}

-- `isspace` of a program, in the C locale.
abbrev is_blank : ℕ → Bool
is_blank c = (leb 9 c && leb c 13) || c == 32

unfoldable pub skip_blanks : List ℕ → List ℕ
skip_blanks [] = []
skip_blanks (c ∷ text) = let rest = skip_blanks text in if is_blank c then rest else c ∷ text

-- `%s` of `scanf` on the input of a program: the bytes up to the next space, whatever else they are.
unfoldable pub word_of : List ℕ → List ℕ
word_of [] = []
word_of (c ∷ text) = if is_blank c then [] else c ∷ word_of text

abbrev pub typed : List ℕ → List ℕ
typed input = word_of (skip_blanks input)

-- `%s` of `printf`: the bytes before the terminator; without one it reads past the end.
unfoldable pub text_of : List ℕ → Option (List ℕ)
text_of [] = none
text_of (c ∷ text) = if c == 0 then some [] else Option.map (λ t. c ∷ t) (text_of text)

-- An `int` as its four bytes.
abbrev pub int_bytes : ℕ → List ℕ
int_bytes n = (n % 256) ∷ (n / 256 % 256) ∷ (n / 256 / 256 % 256) ∷ (n / 256 / 256 / 256 % 256) ∷ []

-- `user_str.len = strlen(user_str.str)`
abbrev pub with_length : List ℕ → Option Msg
with_length str = Option.map (λ n. int_bytes n ++ str) (strlen str)

-- The struct that the writer fills from its input. `scanf` has no width: a word that leaves no room for its
-- terminator goes past `str`.
unfoldable pub typed_message : List ℕ → Option Msg
typed_message input =
    if ltb (length (typed input)) buf_size
    then with_length (overlay (typed input) (replicate buf_size 0))
    else none

-- What the programs print.
pub data Line : Type 0 where
  prompt open_failed ioctl_failed nothing_there : Line
  received : List ℕ → Line

abbrev pub failure : Bool → List Line
failure b = if b then ioctl_failed ∷ [] else []

-- `main` of the writer; the arguments before the input are the kernel and what `open` returns.
unfoldable pub writer_main : Libc → Kernel → ℤ → List ℕ → Driver → Option (List Line × Driver)
writer_main c k dev input s = do
  user ← typed_message input
  if is_negative dev
      then some (prompt ∷ open_failed ∷ [], s)
      else Option.map (λ t. (prompt ∷ failure (is_negative (c.result t.0)), t.2))
          (ch3_ioctl k s (write user))

abbrev pub printed : Bool → List ℕ → Option (List Line)
printed b user =
    if b
    then some (nothing_there ∷ [])
    else Option.map (λ t. received t ∷ []) (text_of (str_of user))

-- `main` of the reader; `user` is what the stack holds in `user_str`.
unfoldable pub reader_main : Libc → Kernel → ℤ → List ℕ → Driver → Option (List Line × Driver)
reader_main c k dev user s = if is_negative dev then some (open_failed ∷ [], s) else do
  t ← ch3_ioctl k s (read user)
  Option.map (λ out. (out, t.2)) (printed (is_negative (c.result t.0)) t.1)

-- A program that somebody starts, with the kernel it meets, what `open` returns, and its input or its stack.
pub data Program : Type 0 where
  writer reader : Kernel → ℤ → List ℕ → Program

abbrev pub start : Libc → Program → Driver → Option (List Line × Driver)
start c (writer k dev input) s = writer_main c k dev input s
start c (reader k dev user) s = reader_main c k dev user s

-- One program after the other.
unfoldable pub run_programs : Libc → List Program → Driver → Option (List Line × Driver)
run_programs c [] s = some ([], s)
run_programs c (p ∷ ps) s = do
  t ← start c p s
  Option.map (λ u. (t.0 ++ u.0, u.1)) (run_programs c ps t.1)
