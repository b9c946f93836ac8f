-- ===== src/Calculator.antt =====
-- character_device_drivers/challenge2/ch2_mod_201711395.c: a number that ioctl calls read, set, add to and multiply.
-- `long` has 64 bits.
pub mod App
pub mod Words
mod Tests
use embedded_system_software.Base.{
  ℕ, zero, suc, ◌+◌, ◌-◌, ◌*◌, ◌/◌, ◌%◌, ◌^◌, ◌≤◌, ◌<◌, bit_and, bit_or, ◌≡◌, refl, sym, ap, subst,
  ◌∙◌, ◌≢◌, ◌↔◌, ◌⊎◌, inl, inr, Bool, true, false, not, ◌&&◌, ◌||◌, Option, none, some, List, [],
  ◌∷◌, ◌++◌, map, arith, ltb, leb, ◌==◌, if◌then◌else◌, ltb→lt, lt→ltb, le→ltb_false, ==_iff,
  ==_refl, Bool-cases, Option-cases, ◌>>=◌, length, get_elem?, get_or, set, total-set, take, drop,
  replicate, overlay, All, total, total-put_at, length-append, length-set, get_elem?-set_self,
  get_elem?-set_ne, get_elem?-lt, get_elem?-none, set-set, lt_of_get_elem?, length-overlay,
  length-take, length-drop, length-replicate, take-overlay, take_all, append-nil, overlay-append,
  append_assoc, All-append, All-get_elem?, All-set, ℤ, pos, negsuc, ltb_ℤ, eqb_ℤ, is_negative,
  ok_code, minus_one, minus_two, as_int, as_int-small, at, put_at, length-put_at, at-put_at_self,
  at-put_at_ne, put_at-put_at, All-put_at, All-at, has_flag, strlen, update, update_self, update_ne,
  IsSome, IsSome-value, update-none, some-ne-none,
}
use embedded_system_software.Libc.{Libc, int_result}

-- GET_IOCTL, SET_IOCTL, ADD_IOCTL, MUL_IOCTL and any other command.
pub data Cmd : Type 0 where
  get_ioctl set_ioctl add_ioctl mul_ioctl other : Cmd

-- The returned `long` and `result` after the call, as bit patterns.
unfoldable pub ch2_ioctl : Cmd → ℕ → ℕ → ℕ × ℕ
ch2_ioctl get_ioctl arg result = (result, result)
ch2_ioctl set_ioctl arg result = (arg % 2 ^ 64, arg % 2 ^ 64)
ch2_ioctl add_ioctl arg result = ((result + arg) % 2 ^ 64, (result + arg) % 2 ^ 64)
ch2_ioctl mul_ioctl arg result = (result * arg % 2 ^ 64, result * arg % 2 ^ 64)
ch2_ioctl other arg result = (2 ^ 64 - 1, result)

-- What `ioctl` gives a program, and `result` after it.
abbrev pub call : Libc → Cmd → ℕ → ℕ → ℤ × ℕ
call c cmd arg result = let r = ch2_ioctl cmd arg result in (int_result c r.0, r.1)

unfoldable pub run : List (Cmd × ℕ) → ℕ → ℕ
run [] result = result
run ((cmd, arg) ∷ calls) result = run calls (ch2_ioctl cmd arg result).1
