-- ===== src/Calculator/Tests.antt =====
-- Runs of the calculator of ch2_mod_201711395.c.
use embedded_system_software.Base.{ℕ, ◌-◌, ◌^◌, ◌≡◌, refl, List, [], ◌∷◌, minus_one, negsuc}
use embedded_system_software.Libc.{posix}
use embedded_system_software.Calculator.{
  run, Cmd, get_ioctl, set_ioctl, add_ioctl, mul_ioctl, ch2_ioctl, call,
}

-- The calls of ch2_app_201711395.c.
abbrev app : List (Cmd × ℕ)
app = (set_ioctl, 200) ∷ (add_ioctl, 300) ∷ (mul_ioctl, 100) ∷ []

-- A result of -7 reaches the program as -1, the sign of an error.
negative-lost : (call posix get_ioctl 0 (2 ^ 64 - 7)).0 ≡ minus_one
unfolding ch2_ioctl
negative-lost = refl

app-result : run app 7 ≡ 50000
unfolding run ch2_ioctl
app-result = refl

-- A result of 2 ^ 31 reaches the program as a negative `int`, and is no error.
large-cut : (call posix get_ioctl 0 (2 ^ 31)).0 ≡ negsuc (2 ^ 31 - 1)
unfolding ch2_ioctl
large-cut = refl
