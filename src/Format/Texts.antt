-- ===== src/Format/Texts.antt =====
-- Texts that end at a byte 0: what the conversions take from them.
use embedded_system_software.Base.{
  ℕ, zero, suc, ◌+◌, ◌-◌, ◌*◌, ◌≤◌, ◌<◌, ◌≡◌, refl, sym, ap, subst, inl, inr, Bool, true, false,
  not, ◌&&◌, ◌||◌, some, List, [], ◌∷◌, ◌++◌, arith, ◌==◌, Bool-cases, Option-cases, length,
  replicate, overlay, All, strlen,
}
use embedded_system_software.Format.{
  is_digit, is_space, text_before, skip_spaces, scan_digits, scan_int, scan_signed,
  starts_with_digit, word, scan_word,
}

-- A byte of a word.
abbrev pub is_letter : ℕ → Bool
is_letter c = not (c == 0) && not (is_space c)

-- A byte that ends a word.
abbrev ends_word : List ℕ → Bool
ends_word [] = true
ends_word (c ∷ text) = c == 0 || is_space c

pub word-append :
    (w text : List ℕ)
    → All (λ c. is_letter c ≡ true) w
    → ends_word text ≡ true
    → word (w ++ text) ≡ w
unfolding word
word-append [] [] h e = refl
word-append [] (c ∷ text) h e = ground arith
word-append (c ∷ w) text h e = ground (arith, word-append w text)

pub text_before-overlay :
    (w : List ℕ) (n : ℕ)
    → All (λ c. is_letter c ≡ true) w
    → length w < n
    → text_before (overlay w (replicate n 0)) ≡ w
unfolding text_before
text_before-overlay w zero h small = absurd (omega arith)
text_before-overlay [] (suc n) h small = refl
text_before-overlay (c ∷ w) (suc n) h small = ground (arith, text_before-overlay w n)

-- The rest of a text that goes on.
strlen-rest :
    (c : ℕ) (text : List ℕ) (n : ℕ)
    → (c == 0) ≡ false
    → strlen (c ∷ text) ≡ some n
    → (m : ℕ) × (strlen text ≡ some m) × (n ≡ m + 1)
strlen-rest c text n go h = elim (Option-cases (strlen text)) [
  | inl e ↦ cc
  | inr (m, e) ↦ (m, e, ground arith)
]

pub strlen-overlay :
    (src dst : List ℕ) (n : ℕ)
    → length src ≤ length dst
    → strlen src ≡ some n
    → strlen (overlay src dst) ≡ some n
strlen-overlay [] dst n h e = cc
strlen-overlay (c ∷ src) [] n h e = absurd (omega arith)
strlen-overlay (c ∷ src) (d ∷ dst) n h e = elim (Bool-cases (c == 0)) [
  | inl z ↦ ground arith
  | inr z ↦
      let (m, same, next) = strlen-rest c src n z e in
      let ih = strlen-overlay src dst m (omega arith) same in rw (z, ih) (ap some (sym next))
]

-- A text that ends within its first bytes.
abbrev pub EndsWithin : ℕ → List ℕ → Type 0
EndsWithin n text = (m : ℕ) × (strlen text ≡ some m) × (m ≤ n)

skip_spaces-EndsWithin :
    (text : List ℕ) (n : ℕ) → strlen text ≡ some n → EndsWithin n (skip_spaces text)
unfolding skip_spaces
skip_spaces-EndsWithin [] n h = cc
skip_spaces-EndsWithin (c ∷ text) n h = elim (Bool-cases (is_space c)) [
  | inl e ↦
      let (m, same, next) = strlen-rest c text n (ground arith) h in
      let (k, ends, le) = skip_spaces-EndsWithin text m same in rw e (k, ends, omega arith)
  | inr e ↦ rw e (n, h, omega arith)
]

length-word : (text : List ℕ) (n : ℕ) → strlen text ≡ some n → length (word text) ≤ n
unfolding word
length-word [] n h = cc
length-word (c ∷ text) n h = elim (Bool-cases (c == 0)) [
  | inl e ↦ ground arith
  | inr e ↦
      let (m, same, next) = strlen-rest c text n e h in
      let ih = length-word text m same in ground arith
]

-- A scanned number takes at least a byte.
scan_digits-EndsWithin :
    (a : ℕ) (text : List ℕ) (n : ℕ) → strlen text ≡ some n → EndsWithin n (scan_digits a text).1
unfolding scan_digits
scan_digits-EndsWithin a [] n h = cc
scan_digits-EndsWithin a (c ∷ text) n h = elim (Bool-cases (is_digit c)) [
  | inl e ↦
      let (m, same, next) = strlen-rest c text n (ground arith) h in
      let (k, ends, le) = scan_digits-EndsWithin (a * 10 + (c - 48)) text m same in
      rw e (k, ends, omega arith)
  | inr e ↦ rw e (n, h, omega arith)
]

digits-EndsWithin :
    (text : List ℕ) (n : ℕ)
    → starts_with_digit text ≡ true
    → strlen text ≡ some n
    → (m : ℕ) × (n ≡ m + 1) × EndsWithin m (scan_digits 0 text).1
unfolding scan_digits
digits-EndsWithin [] n d h = cc
digits-EndsWithin (c ∷ text) n d h =
    let (m, same, next) = strlen-rest c text n (ground arith) h in
    (m, next, rw d (scan_digits-EndsWithin (0 * 10 + (c - 48)) text m same))

scan_signed-EndsWithin :
    (text : List ℕ) (n v : ℕ) (rest : List ℕ)
    → strlen text ≡ some n
    → scan_signed text ≡ some (v, rest)
    → (m : ℕ) × (m < n) × (strlen rest ≡ some m)
scan_signed-EndsWithin [] n v rest h e = cc
scan_signed-EndsWithin (c ∷ text) n v rest h e = elim (Bool-cases (c == 45)) [
  | inl minus ↦ elim (Bool-cases (starts_with_digit text)) [
    | inl d ↦
        let (m, same, next) = strlen-rest c text n (ground arith) h in
        let (k, after, w) = digits-EndsWithin text m d same in
        (
          w.0,
          omega (arith, w.2),
          subst (λ t. strlen t ≡ some w.0) {x = (scan_digits 0 text).1} {y = rest} (ground arith)
              w.1,
        )
    | inr d ↦ ground arith
  ]
  | inr minus ↦ elim (Bool-cases (is_digit c)) [
    | inl d ↦
        let (k, after, w) = digits-EndsWithin (c ∷ text) n d h in
        (
          w.0,
          omega (arith, w.2),
          subst (λ t. strlen t ≡ some w.0) {x = (scan_digits 0 (c ∷ text)).1} {y = rest}
              (ground arith) w.1,
        )
    | inr d ↦ ground arith
  ]
]

scan_int-EndsWithin :
    (text : List ℕ) (n v : ℕ) (rest : List ℕ)
    → strlen text ≡ some n
    → scan_int text ≡ some (v, rest)
    → (m : ℕ) × (m < n) × (strlen rest ≡ some m)
unfolding scan_int
scan_int-EndsWithin text n v rest h e =
    let (m, same, le) = skip_spaces-EndsWithin text n h in
    let (k, lt, ends) = scan_signed-EndsWithin (skip_spaces text) m v rest same e in
    (k, omega arith, ends)

-- A number takes at least one byte, so the word after it is shorter than the text.
pub length-scan_word :
    (text : List ℕ) (n v : ℕ) (rest : List ℕ)
    → strlen text ≡ some n
    → scan_int text ≡ some (v, rest)
    → length (scan_word rest) < n
length-scan_word text n v rest h e =
    let (m, lt, ends) = scan_int-EndsWithin text n v rest h e in
    let (k, same, le) = skip_spaces-EndsWithin rest m ends in
    let short = length-word (skip_spaces rest) k same in omega arith
