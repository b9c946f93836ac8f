-- ===== src/MyId.antt =====
-- The modules that keep an id for others: kernel_modules/challenge1 (ch1_mod1 exports two functions that ch1_mod2 calls),
-- kernel_modules/exercise3 (mod1 exports the variable), and character_device_drivers/exercise3 (simple_param, behind `ioctl`).
mod Tests
use embedded_system_software.Base.{
  ℕ, zero, suc, ◌+◌, ◌-◌, ◌*◌, ◌/◌, ◌%◌, ◌^◌, ◌≤◌, ◌<◌, bit_and, bit_or, ◌≡◌, refl, sym, ap, subst,
  ◌∙◌, ◌≢◌, ◌↔◌, ◌⊎◌, inl, inr, Bool, true, false, not, ◌&&◌, ◌||◌, Option, none, some, List, [],
  ◌∷◌, ◌++◌, map, arith, ltb, leb, ◌==◌, if◌then◌else◌, ltb→lt, lt→ltb, le→ltb_false, ==_iff,
  ==_refl, Bool-cases, Option-cases, ◌>>=◌, length, get_elem?, get_or, set, total-set, take, drop,
  replicate, overlay, All, total, total-put_at, length-append, length-set, get_elem?-set_self,
  get_elem?-set_ne, get_elem?-lt, get_elem?-none, set-set, lt_of_get_elem?, length-overlay,
  length-take, length-drop, length-replicate, take-overlay, take_all, append-nil, overlay-append,
  append_assoc, All-append, All-get_elem?, All-set, ℤ, pos, negsuc, ltb_ℤ, eqb_ℤ, is_negative,
  ok_code, minus_one, minus_two, as_int, as_int-small, at, put_at, length-put_at, at-put_at_self,
  at-put_at_ne, put_at-put_at, All-put_at, All-at, has_flag, strlen, update, update_self, update_ne,
  IsSome, IsSome-value, update-none, some-ne-none,
}
use embedded_system_software.Libc.{Libc, int_result}

-- `my_id` as the bit pattern of an `int`, or of a `long` of 64 bits.
abbrev pub MyId : Type 0
MyId = ℕ

abbrev pub get_my_id : MyId → ℕ
get_my_id my_id = my_id

abbrev pub set_my_id : ℕ → MyId → MyId
set_my_id id my_id = id

-- What `ch1_mod2_init` prints, and the id that it leaves in the other module.
unfoldable pub ch1_mod2_init : MyId → ℤ × List ℕ × MyId
ch1_mod2_init my_id =
    let after = set_my_id 201711395 my_id in
    (ok_code, get_my_id my_id ∷ get_my_id after ∷ [], after)

-- The variable that mod1 exports, and what mod2 prints of it.
abbrev pub mod1_id : MyId
mod1_id = 202077777

abbrev pub mod2_init : MyId → ℤ × List ℕ
mod2_init my_id = (ok_code, my_id ∷ [])

-- The commands of simple_param, whose code is the bit pattern of a `long`; the argument of the second is a number.
pub data Command : Type 0 where
  param_get unknown : Command
  param_set : ℕ → Command

unfoldable pub simple_param_ioctl : Command → MyId → ℕ × MyId
simple_param_ioctl param_get my_id = (my_id, my_id)
simple_param_ioctl (param_set arg) my_id = (arg, arg)
simple_param_ioctl unknown my_id = (2 ^ 64 - 1, my_id)

-- `main` of simple_param_app: what it prints, which is its own variable, and the id of the module. `opened` is whether the device opens.
unfoldable pub simple_param_main : Bool → MyId → ℕ × MyId
simple_param_main opened my_id =
    let id : ℕ = 201711395 in
    let t = if opened then (simple_param_ioctl (param_set id) my_id).1 else my_id in
    let u = if opened then (simple_param_ioctl param_get t).1 else t in (id, u)

-- What a program gets when it asks for the id.
abbrev pub asked : Libc → MyId → ℤ
asked c my_id = int_result c (simple_param_ioctl param_get my_id).0
