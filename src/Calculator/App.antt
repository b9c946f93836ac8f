-- ===== src/Calculator/App.antt =====
-- character_device_drivers/challenge2/ch2_app_201711395.c over the calls of the calculator.
use embedded_system_software.Base.{ℕ, ◌≡◌, refl, List, [], ◌∷◌, ℤ, pos}
use embedded_system_software.Libc.{Libc, IsLibc}
use embedded_system_software.Calculator.{
  call, get_ioctl, set_ioctl, add_ioctl, mul_ioctl, ch2_ioctl,
}

-- What a program prints that gets the result, and the number of the module.
abbrev pub shown : Libc → ℕ → ℤ × ℕ
shown c result = call c get_ioctl 0 result

-- `main`, when the device opens: the three results that it prints.
unfoldable pub app_main : Libc → ℕ → List ℤ × ℕ
app_main c result =
    let a = shown c (call c set_ioctl 200 result).1 in
    let b = shown c (call c add_ioctl 300 a.1).1 in
    let d = shown c (call c mul_ioctl 100 b.1).1 in (a.0 ∷ b.0 ∷ d.0 ∷ [], d.1)

-- The program prints 200, 500 and 50000, whatever the module held.
app_main-printed :
    (c : Libc) (result : ℕ) → IsLibc c → (app_main c result).0 ≡ pos 200 ∷ pos 500 ∷ pos 50000 ∷ []
unfolding app_main ch2_ioctl
app_main-printed c result libc = rw (libc.passes 200, libc.passes 500, libc.passes 50000) refl
