-- ===== src/Calculator/Words.antt =====
-- The calculator of ch2_mod_201711395.c computes on words what the calls say of numbers.
use embedded_system_software.Base.{
  ℕ, ◌+◌, ◌*◌, ◌/◌, ◌%◌, ◌^◌, ◌<◌, ◌≡◌, refl, sym, ap, ◌∙◌, List, [], ◌∷◌, arith, pos,
}
use embedded_system_software.Libc.{Libc, IsLibc, int_result-small}
use native.Mathlib.Nat.{mod-add-div, add-mul-mod_self_left, mod-eq_of_lt}
use embedded_system_software.Calculator.{
  Cmd, get_ioctl, set_ioctl, add_ioctl, mul_ioctl, other, ch2_ioctl, call, run,
}

-- The number that the calls make of another, with no bound.
abbrev pub apply : Cmd → ℕ → ℕ → ℕ
apply get_ioctl arg n = n
apply set_ioctl arg n = arg
apply add_ioctl arg n = n + arg
apply mul_ioctl arg n = n * arg
apply other arg n = n

abbrev pub value : List (Cmd × ℕ) → ℕ → ℕ
value [] n = n
value ((cmd, arg) ∷ calls) n = value calls (apply cmd arg n)

mul-mod : (n arg m : ℕ) → n % m * arg % m ≡ n * arg % m
mul-mod n arg m =
    let split : n * arg ≡ n % m * arg + m * (n / m * arg) = grind (arith, mod-add-div n m) in
    sym (add-mul-mod_self_left (n % m * arg) m (n / m * arg)) ∙ ap (λ x. x % m) (sym split)

ioctl-apply :
    (cmd : Cmd) (arg n : ℕ) → (ch2_ioctl cmd arg (n % 2 ^ 64)).1 ≡ apply cmd arg n % 2 ^ 64
unfolding ch2_ioctl
ioctl-apply get_ioctl arg n = refl
ioctl-apply set_ioctl arg n = refl
ioctl-apply add_ioctl arg n = omega arith
ioctl-apply mul_ioctl arg n = mul-mod n arg (2 ^ 64)
ioctl-apply other arg n = refl

run-value : (calls : List (Cmd × ℕ)) (n : ℕ) → run calls (n % 2 ^ 64) ≡ value calls n % 2 ^ 64
unfolding run
run-value [] n = refl
run-value ((cmd, arg) ∷ calls) n =
    ap (run calls) (ioctl-apply cmd arg n) ∙ run-value calls (apply cmd arg n)

-- After any calls, whatever overflowed on the way, a program that asks for the result gets the number that the calls
-- make of the first one when that is below 2 ^ 31.
run-get :
    (c : Libc)
    → IsLibc c
    → (calls : List (Cmd × ℕ)) (n : ℕ) → value calls n < 2 ^ 31
    → (call c get_ioctl 0 (run calls (n % 2 ^ 64))).0 ≡ pos (value calls n)
unfolding ch2_ioctl
run-get c libc calls n small =
    let h : run calls (n % 2 ^ 64) ≡ value calls n =
      run-value calls n ∙ mod-eq_of_lt (omega arith) in
    rw h (int_result-small c (value calls n) libc small)
