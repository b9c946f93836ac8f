-- ===== src/Format/Numbers.antt =====
-- Decimal numbers: what `%d` prints, `%d` scans.
use embedded_system_software.Base.{
  ℕ, zero, suc, ◌+◌, ◌-◌, ◌*◌, ◌/◌, ◌%◌, ◌^◌, ◌≤◌, ◌<◌, ◌≡◌, refl, ap, ◌∙◌, inl, inr, true, false,
  some, List, [], ◌∷◌, ◌++◌, arith, ltb, ◌==◌, Bool-cases, length,
}
use embedded_system_software.Format.{
  is_digit, is_space, digits, print_nat, print_int, skip_spaces, scan_digits, scan_int,
  starts_with_digit,
}

-- The powers of ten.
abbrev pub ten_to : ℕ → ℕ
ten_to zero = 1
ten_to (suc k) = 10 * ten_to k

scan_digits-digits :
    (f n : ℕ) (text : List ℕ) → n < ten_to f → scan_digits 0 (digits f n text) ≡ scan_digits n text
unfolding digits scan_digits
scan_digits-digits zero n text h = ap (λ m. scan_digits m text) (omega arith)
scan_digits-digits (suc f) n text h = elim (Bool-cases (ltb n 10)) [
  | inl e ↦ ground arith
  | inr e ↦
      let ih = scan_digits-digits f (n / 10) ((48 + n % 10) ∷ text) (omega arith) in
      ground (arith, ih)
]

-- The first byte of a number is a digit.
digits-first :
    (f n : ℕ) (text : List ℕ)
    → n < ten_to (suc f)
    → (c : ℕ) × (rest : List ℕ) × (digits (suc f) n text ≡ c ∷ rest) × (is_digit c ≡ true)
unfolding digits
digits-first zero n text h = (48 + n, text, ground arith, ground arith)
digits-first (suc f) n text h = elim (Bool-cases (ltb n 10)) [
  | inl e ↦ (48 + n, text, ground arith, ground arith)
  | inr e ↦
      let (c, rest, same, d) = digits-first f (n / 10) ((48 + n % 10) ∷ text) (omega arith) in
      (c, rest, rw e same, d)
]

length-digits : (f n : ℕ) (text : List ℕ) → length (digits f n text) ≤ f + length text
unfolding digits
length-digits zero n text = omega arith
length-digits (suc f) n text = ground (arith, length-digits f (n / 10) ((48 + n % 10) ∷ text))

scan_digits-end :
    (n : ℕ) (text : List ℕ) → starts_with_digit text ≡ false → scan_digits n text ≡ (n, text)
unfolding scan_digits
scan_digits-end n [] h = refl
scan_digits-end n (c ∷ text) h = ground arith

module _ (n : ℕ) (text : List ℕ) (small : n < 2 ^ 32) (end : starts_with_digit text ≡ false) where
  scan_digits-print_nat : scan_digits 0 (print_nat n text) ≡ (n, text)
  scan_digits-print_nat = scan_digits-digits 10 n text (omega arith) ∙ scan_digits-end n text end

  starts-print_nat : starts_with_digit (print_nat n text) ≡ true
  starts-print_nat = let (c, rest, same, d) = digits-first 9 n text (omega arith) in rw same d

scan_int-unsigned :
    (text : List ℕ) (n : ℕ) (rest : List ℕ)
    → starts_with_digit text ≡ true
    → scan_digits 0 text ≡ (n, rest)
    → scan_int text ≡ some (n % 2 ^ 32, rest)
unfolding scan_int skip_spaces
scan_int-unsigned [] n rest d h = cc
scan_int-unsigned (c ∷ text) n rest d h =
    let space : is_space c ≡ false = ground arith in
    let sign : (c == 45) ≡ false = ground arith in rw (space, sign, d, h) refl

scan_int-minus :
    (text : List ℕ) (n : ℕ) (rest : List ℕ)
    → starts_with_digit text ≡ true
    → scan_digits 0 text ≡ (n, rest)
    → scan_int (45 ∷ text) ≡ some ((2 ^ 32 - n % 2 ^ 32) % 2 ^ 32, rest)
unfolding scan_int skip_spaces
scan_int-minus text n rest d h = rw (d, h) refl

-- What `%d` prints of an `int`, before something that is no digit, `%d` scans as the same `int`.
pub scan_int-print_int :
    (n : ℕ) (text : List ℕ)
    → n < 2 ^ 32
    → starts_with_digit text ≡ false
    → scan_int (print_int n text) ≡ some (n, text)
scan_int-print_int n text small end = elim (Bool-cases (ltb n (2 ^ 31))) [
  | inl e ↦ rw e (
      scan_int-unsigned (print_nat n text) n text (starts-print_nat n text small end)
        (scan_digits-print_nat n text small end)
      ∙ ap (λ m. some (m, text)) (omega arith))
  | inr e ↦ rw e (
      scan_int-minus (print_nat (2 ^ 32 - n) text) (2 ^ 32 - n) text
        (starts-print_nat (2 ^ 32 - n) text (ground arith) end)
        (scan_digits-print_nat (2 ^ 32 - n) text (ground arith) end)
      ∙ ap (λ m. some (m, text)) (ground arith))
]

-- Printing an `int` takes at most eleven bytes.
pub length-print_int : (n : ℕ) (text : List ℕ) → length (print_int n text) ≤ 11 + length text
length-print_int n text =
    ground (arith, length-digits 10 n text, length-digits 10 (2 ^ 32 - n) text)

digits-append : (f n : ℕ) (text more : List ℕ) → digits f n text ++ more ≡ digits f n (text ++ more)
unfolding digits
digits-append zero n text more = refl
digits-append (suc f) n text more = elim (Bool-cases (ltb n 10)) [
  | inl e ↦ rw e refl
  | inr e ↦ rw e (digits-append f (n / 10) ((48 + n % 10) ∷ text) more)
]

pub print_int-append :
    (n : ℕ) (text more : List ℕ) → print_int n text ++ more ≡ print_int n (text ++ more)
print_int-append n text more = elim (Bool-cases (ltb n (2 ^ 31))) [
  | inl e ↦ rw e (digits-append 10 n text more)
  | inr e ↦ rw e (ap (◌∷◌ 45) (digits-append 10 (2 ^ 32 - n) text more))
]
