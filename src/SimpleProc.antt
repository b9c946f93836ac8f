-- ===== src/SimpleProc.antt =====
-- basic_kernel_functions/exercise3/simple_proc.c: an id and a name that the proc file shows and takes. A write whose
-- behaviour C leaves undefined has no result: it reads past `buf` or stores past `name`.
pub mod Rewrite
mod Tests
use embedded_system_software.Base.{
  ℕ, zero, suc, ◌+◌, ◌-◌, ◌*◌, ◌/◌, ◌%◌, ◌^◌, ◌≤◌, ◌<◌, bit_and, bit_or, ◌≡◌, refl, sym, ap, subst,
  ◌∙◌, ◌≢◌, ◌↔◌, ◌⊎◌, inl, inr, Bool, true, false, not, ◌&&◌, ◌||◌, Option, none, some, List, [],
  ◌∷◌, ◌++◌, map, arith, ltb, leb, ◌==◌, if◌then◌else◌, ltb→lt, lt→ltb, le→ltb_false, ==_iff,
  ==_refl, Bool-cases, Option-cases, ◌>>=◌, length, get_elem?, get_or, set, total-set, take, drop,
  replicate, overlay, All, total, total-put_at, length-append, length-set, get_elem?-set_self,
  get_elem?-set_ne, get_elem?-lt, get_elem?-none, set-set, lt_of_get_elem?, length-overlay,
  length-take, length-drop, length-replicate, take-overlay, All-append, All-get_elem?, All-set, ℤ,
  pos, negsuc, ltb_ℤ, eqb_ℤ, is_negative, ok_code, minus_one, minus_two, as_int, as_int-small, at,
  put_at, length-put_at, at-put_at_self, at-put_at_ne, put_at-put_at, All-put_at, All-at, has_flag,
  strlen, update, update_self, update_ne, IsSome, IsSome-value, update-none, some-ne-none,
}
use embedded_system_software.Format.{print_int, text_before, scan_int, scan_word}
use embedded_system_software.Kernel.{Kernel}

-- `BUF_SIZE`
abbrev pub buf_size : ℕ
buf_size = 128

-- `id` as a bit pattern, and the bytes of `name`.
pub record Proc : Type 0 where
  pub id : ℕ
  pub name : List ℕ

-- `sizeof(name)`
abbrev pub name_size : ℕ
name_size = 100

abbrev pub cleared : List ℕ
cleared = replicate name_size 0

abbrev pub proc_info_show : Proc → List ℕ
proc_info_show s = print_int s.id (10 ∷ text_before s.name ++ 10 ∷ [])

-- `sscanf(buf, "%d %s\n", &id, name)` after the number.
abbrev pub store : ℕ → Option (ℕ × List ℕ) → Proc → Option (ℤ × Proc)
store n none s = some (pos n, record s { name = cleared })
store n (some (id, rest)) s =
    if ltb (length (scan_word rest)) name_size
    then some (pos n, record { id = id; name = overlay (scan_word rest) cleared })
    else none

-- The text in `buf`, whose length is the result.
abbrev pub scanned : List ℕ → Option ℕ → Proc → Option (ℤ × Proc)
scanned buf none s = none
scanned buf (some n) s = store n (scan_int buf) s

-- `stack` is what `buf` holds before the copy.
unfoldable pub proc_info_write : Kernel → List ℕ → ℕ → List ℕ → Proc → Option (ℤ × Proc)
proc_info_write k user ubuf_len stack s =
    let buf = overlay (take ubuf_len user) stack in
    if ltb buf_size ubuf_len
    then some (minus_one, s)
    else (if k.from_user user ubuf_len == 0
        then scanned buf (strlen buf) s
        else some (minus_one, s))

-- The values the module is loaded with: the name is Embedded_System_Software.
abbrev pub initial : Proc
initial = record {
  id = 201711395;
  name =
      overlay
        (69 ∷ 109 ∷ 98 ∷ 101 ∷ 100 ∷ 100 ∷ 101 ∷ 100 ∷ 95 ∷ 83 ∷ 121 ∷ 115 ∷ 116 ∷ 101 ∷ 109 ∷ 95
          ∷ 83 ∷ 111 ∷ 102 ∷ 116 ∷ 119 ∷ 97 ∷ 114 ∷ 101 ∷ [])
        cleared;
}
