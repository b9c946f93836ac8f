-- ===== src/MyId/Tests.antt =====
-- The ids that are printed and given back.
use embedded_system_software.Base.{◌-◌, ◌^◌, ◌≡◌, refl, false, [], ◌∷◌, pos, minus_one}
use embedded_system_software.Libc.{posix}
use embedded_system_software.MyId.{
  ch1_mod2_init, simple_param_ioctl, simple_param_main, asked, mod1_id, mod2_init, param_set,
}

mod2-prints : ch1_mod2_init 0 ≡ (pos 0, 0 ∷ 201711395 ∷ [], 201711395)
unfolding ch1_mod2_init
mod2-prints = refl

exported : (mod2_init mod1_id).1 ≡ 202077777 ∷ []
exported = refl

-- The program prints its own variable, also when the device does not open and the module keeps another id.
param_main-unopened : simple_param_main false 7 ≡ (201711395, 7)
unfolding simple_param_main
param_main-unopened = refl

-- An id of -2 reaches the program as the error -1.
asked-error : asked posix (simple_param_ioctl (param_set (2 ^ 64 - 2)) 0).1 ≡ minus_one
unfolding simple_param_ioctl
asked-error = refl
