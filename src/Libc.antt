-- ===== src/Libc.antt =====
-- The C library as the applications see it.
use embedded_system_software.Base.{
  ℕ, ◌-◌, ◌%◌, ◌^◌, as_int, as_int-small, arith, ltb, ◌<◌, ◌≡◌, refl, if◌then◌else◌, ℤ, pos, negsuc,
  is_negative, minus_one,
}

-- What the libraries use of libc, which is not part of the repository: the result that `ioctl` gives for the driver's code.
pub record Libc : Type 0 where
  pub result : ℤ → ℤ

-- The documented behaviour: a code from -4095 to -1 sets `errno` and gives -1, any other is the result.
pub record IsLibc (c : Libc) : Type 0 where
  pub passes : (n : ℕ) → c.result (pos n) ≡ pos n
  pub fails : (n : ℕ) → n < 4095 → c.result (negsuc n) ≡ minus_one

-- A C library that does what is documented.
abbrev pub posix : Libc
posix = record { result = λ z. if is_negative z then minus_one else z }

pub posix-IsLibc : IsLibc posix
posix-IsLibc = record { passes = λ n. refl; fails = λ n h. refl }

-- A `long` of 64 bits from its bit pattern.
abbrev pub as_long : ℕ → ℤ
as_long n = let m = n % 2 ^ 64 in if ltb m (2 ^ 63) then pos m else negsuc (2 ^ 64 - 1 - m)

-- The low 32 bits of a number as an `int`.
abbrev pub to_int : ℤ → ℤ
to_int (pos n) = as_int n
to_int (negsuc n) = as_int (2 ^ 32 - 1 - n % 2 ^ 32)

-- What a program has of a driver's `long` code: the result of `ioctl`, which is an `int`.
abbrev pub int_result : Libc → ℕ → ℤ
int_result c code = to_int (c.result (as_long code))

pub int_result-small : (c : Libc) (n : ℕ) → IsLibc c → n < 2 ^ 31 → int_result c n ≡ pos n
int_result-small c n libc small =
    let long : as_long n ≡ pos n = ground arith in rw (long, libc.passes n) (as_int-small n small)
