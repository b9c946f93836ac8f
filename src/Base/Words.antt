-- ===== src/Base/Words.antt =====
-- C integers. A signed value is a `ℤ`; a value that the code only compares or masks is its bit
-- pattern, a number below 2 ^ w. Arrays are indexed by an `int`, and an index out of range faults.
use Prim.Native.Nat.{◌<◌, ◌<◌, ℕ, ◌+◌, ◌-◌, ◌*◌, ◌%◌, ◌^◌, bit_and}
use native.Mathlib.Omega.{arith}
use mathlib.Core.Path.{◌≡◌, refl, ap}
use mathlib.Core.Logic.{◌≢◌}
use mathlib.Core.Bool.{Bool, true, false, not}
use mathlib.Core.List.{List, [], ◌∷◌}
use mathlib.Core.Option
use mathlib.Core.Option.{Option, none, some}
use embedded_system_software.Base.Tests.{ltb, ◌==◌, if◌then◌else◌}
use embedded_system_software.Base.Lists.{
  total, total-set, get_elem?, set, length, All, length-set, get_elem?-set_self, get_elem?-set_ne,
  lt_of_get_elem?, set-set, All-set, All-get_elem?,
}

-- `negsuc n` is -(n + 1).
pub data ℤ : Type 0 where
  pos : ℕ → ℤ
  negsuc : ℕ → ℤ

abbrev pub pos_part : ℤ → ℕ
pos_part (pos n) = n
pos_part (negsuc n) = 0

abbrev pub neg_part : ℤ → ℕ
neg_part (pos n) = 0
neg_part (negsuc n) = n + 1

abbrev pub ltb_ℤ : ℤ → ℤ → Bool
ltb_ℤ a b = ltb (pos_part a + neg_part b) (pos_part b + neg_part a)

abbrev pub eqb_ℤ : ℤ → ℤ → Bool
eqb_ℤ a b = (pos_part a + neg_part b) == (pos_part b + neg_part a)

abbrev pub is_negative : ℤ → Bool
is_negative (pos n) = false
is_negative (negsuc n) = true

-- The codes that the sources return.
abbrev pub ok_code : ℤ
ok_code = pos 0

abbrev pub minus_one : ℤ
minus_one = negsuc 0

abbrev pub minus_two : ℤ
minus_two = negsuc 1

-- `(int) n`: the low 32 bits in two's complement.
abbrev pub as_int : ℕ → ℤ
as_int n = let m = n % 2 ^ 32 in if ltb m (2 ^ 31) then pos m else negsuc (2 ^ 32 - 1 - m)

pub as_int-small : (n : ℕ) → n < 2 ^ 31 → as_int n ≡ pos n
as_int-small n h = ground arith

-- Array access by an `int` index.
abbrev pub at {ℓ} : {A : Type ℓ} → List A → ℤ → Option A
at xs (pos i) = get_elem? xs i
at xs (negsuc i) = none

abbrev pub put_at {ℓ} : {A : Type ℓ} → List A → ℤ → A → List A
put_at xs (pos i) v = set xs i v
put_at xs (negsuc i) v = xs

-- `flags & mask` is not 0.
abbrev pub has_flag : ℕ → ℕ → Bool
has_flag flags mask = not (bit_and flags mask == 0)

-- `strlen`: a text with no terminator is read past its end.
abbrev pub strlen : List ℕ → Option ℕ
strlen [] = none
strlen (b ∷ bs) = if b == 0 then some 0 else Option.map (λ n. n + 1) (strlen bs)

-- A number stored in little-endian order.
abbrev pub little_endian : List ℕ → ℕ
little_endian [] = 0
little_endian (b ∷ bs) = b + 256 * little_endian bs

module _ {ℓ} {A : Type ℓ} where
  pub length-put_at : (xs : List A) (key : ℤ) (v : A) → length (put_at xs key v) ≡ length xs
  length-put_at xs (pos i) v = length-set xs i v
  length-put_at xs (negsuc i) v = refl

  pub at-put_at_self :
      (xs : List A) (key : ℤ) (v x : A) → at xs key ≡ some x → at (put_at xs key v) key ≡ some v
  at-put_at_self xs (pos i) v x e = get_elem?-set_self xs i v (lt_of_get_elem? xs i x e)
  at-put_at_self xs (negsuc i) v x e = cc

  -- Writing back what an entry holds changes nothing.
  pub put_at-put_at :
      (xs : List A) (key : ℤ) (v x : A) → at xs key ≡ some x → put_at (put_at xs key v) key x ≡ xs
  put_at-put_at xs (pos i) v x e = set-set xs i v x e
  put_at-put_at xs (negsuc i) v x e = refl

  pub at-put_at_ne : (xs : List A) (i j : ℤ) (v : A) → i ≢ j → at (put_at xs i v) j ≡ at xs j
  at-put_at_ne xs (pos i) (pos j) v h = get_elem?-set_ne xs v (λ e. h (ap pos e))
  at-put_at_ne xs (pos i) (negsuc j) v h = refl
  at-put_at_ne xs (negsuc i) j v h = refl

  module _ {κ} (P : A → Type κ) where
    pub All-put_at : (xs : List A) (key : ℤ) (v : A) → P v → All P xs → All P (put_at xs key v)
    All-put_at xs (pos i) v p h = All-set P xs i v p h
    All-put_at xs (negsuc i) v p h = h

    pub All-at : (xs : List A) (key : ℤ) (x : A) → All P xs → at xs key ≡ some x → P x
    All-at xs (pos i) x h e = All-get_elem? P xs i x h e
    All-at xs (negsuc i) x h e = cc

  pub total-put_at :
      (qs : List (List A)) (key : ℤ) (q q' : List A)
      → at qs key ≡ some q
      → total (put_at qs key q') + length q ≡ total qs + length q'
  total-put_at qs (pos i) q q' e = total-set qs i q q' e
  total-put_at qs (negsuc i) q q' e = cc
