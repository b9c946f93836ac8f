-- ===== src/Format.antt =====
-- The conversions of `sprintf`, `seq_printf` and `sscanf` that the modules use, as C describes them, on texts as lists of
-- bytes: `%d` and `%ld`, with the number as a bit pattern of 32 bits, and `%s`. None of these reads past a byte 0.
pub mod Numbers
pub mod Texts
use embedded_system_software.Base.{
  ℕ, zero, suc, ◌+◌, ◌-◌, ◌*◌, ◌/◌, ◌%◌, ◌^◌, ◌≤◌, ◌<◌, bit_and, bit_or, ◌≡◌, refl, sym, ap, subst,
  ◌∙◌, ◌≢◌, ◌↔◌, ◌⊎◌, inl, inr, Bool, true, false, not, ◌&&◌, ◌||◌, Option, none, some, List, [],
  ◌∷◌, ◌++◌, map, arith, ltb, leb, ◌==◌, if◌then◌else◌, ltb→lt, lt→ltb, le→ltb_false, ==_iff,
  ==_refl, Bool-cases, Option-cases, ◌>>=◌, length, get_elem?, get_or, set, total-set, take, drop,
  replicate, overlay, All, total, total-put_at, length-append, length-set, get_elem?-set_self,
  get_elem?-set_ne, get_elem?-lt, get_elem?-none, set-set, lt_of_get_elem?, length-overlay,
  length-take, length-drop, length-replicate, take-overlay, All-append, All-get_elem?, All-set, ℤ,
  pos, negsuc, ltb_ℤ, eqb_ℤ, is_negative, ok_code, minus_one, minus_two, as_int, as_int-small, at,
  put_at, length-put_at, at-put_at_self, at-put_at_ne, put_at-put_at, All-put_at, All-at, has_flag,
  strlen, update, update_self, update_ne, IsSome, IsSome-value, update-none, some-ne-none,
}

abbrev pub is_digit : ℕ → Bool
is_digit c = leb 48 c && leb c 57

-- `isspace` of the kernel, which counts in Latin 1.
abbrev pub is_space : ℕ → Bool
is_space c = (leb 9 c && leb c 13) || (c == 32 || c == 160)

-- The last `fuel` decimal digits of a number at most, before a text; a number of 32 bits has no more than ten.
unfoldable pub digits : ℕ → ℕ → List ℕ → List ℕ
digits zero n text = text
digits (suc fuel) n text =
    if ltb n 10 then (48 + n) ∷ text else digits fuel (n / 10) ((48 + n % 10) ∷ text)

abbrev pub print_nat : ℕ → List ℕ → List ℕ
print_nat n text = digits 10 n text

-- `%d` of `sprintf`, before a text.
abbrev pub print_int : ℕ → List ℕ → List ℕ
print_int n text = if ltb n (2 ^ 31) then print_nat n text else 45 ∷ print_nat (2 ^ 32 - n) text

-- `%s` of `sprintf`: the bytes before the terminator.
unfoldable pub text_before : List ℕ → List ℕ
text_before [] = []
text_before (c ∷ text) = if c == 0 then [] else c ∷ text_before text

unfoldable pub skip_spaces : List ℕ → List ℕ
skip_spaces [] = []
skip_spaces (c ∷ text) = let rest = skip_spaces text in if is_space c then rest else c ∷ text

-- The number that the leading digits of a text continue, and what follows them.
unfoldable pub scan_digits : ℕ → List ℕ → ℕ × List ℕ
scan_digits n [] = (n, [])
scan_digits n (c ∷ text) =
    let rest = scan_digits (n * 10 + (c - 48)) text in if is_digit c then rest else (n, c ∷ text)

abbrev pub starts_with_digit : List ℕ → Bool
starts_with_digit [] = false
starts_with_digit (c ∷ text) = is_digit c

-- `%d` of `sscanf`: the number, kept in 32 bits, and what follows it; nothing when no digit is there.
abbrev pub scan_signed : List ℕ → Option (ℕ × List ℕ)
scan_signed [] = none
scan_signed (c ∷ text) =
    if c == 45
    then (if starts_with_digit text
        then some ((2 ^ 32 - (scan_digits 0 text).0 % 2 ^ 32) % 2 ^ 32, (scan_digits 0 text).1)
        else none)
    else (if is_digit c
        then some ((scan_digits 0 (c ∷ text)).0 % 2 ^ 32, (scan_digits 0 (c ∷ text)).1)
        else none)

unfoldable pub scan_int : List ℕ → Option (ℕ × List ℕ)
scan_int text = scan_signed (skip_spaces text)

-- `%s` of `sscanf`: the bytes up to the next space or the terminator.
unfoldable pub word : List ℕ → List ℕ
word [] = []
word (c ∷ text) = if c == 0 || is_space c then [] else c ∷ word text

abbrev pub scan_word : List ℕ → List ℕ
scan_word text = word (skip_spaces text)
