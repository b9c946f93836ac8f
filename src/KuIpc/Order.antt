-- ===== src/KuIpc/Order.antt =====
-- What the test of `ku_ipc_msgsnd` on the messages and the volume of a queue sees of their order: nothing.
use embedded_system_software.Base.{
  ℕ, ◌+◌, ◌%◌, ◌^◌, ◌≡◌, refl, sym, ap, ◌∙◌, inl, inr, true, false, List, [], ◌∷◌, arith, ◌==◌,
  if◌then◌else◌, ==_refl, Bool-cases, Option-cases, drop,
}
use embedded_system_software.KuIpc.{Msgbuf, type_of, volume_of, tally, succ_int}
use embedded_system_software.KuIpc.ByType.{of_type}
use embedded_system_software.KuIpc.Mailboxes.{SameBoxes}

tally-swap :
    (a b : Msgbuf) (q : List Msgbuf) (num vol : ℕ)
    → tally (a ∷ b ∷ q) num vol ≡ tally (b ∷ a ∷ q) num vol
unfolding tally
tally-swap a b q num vol = elim (Option-cases (volume_of a)) [
  | inl x ↦ elim (Option-cases (volume_of b)) [
    | inl y ↦ rw (x, y) refl
    | inr (v, y) ↦ rw (x, y) refl
  ]
  | inr (u, x) ↦ elim (Option-cases (volume_of b)) [
    | inl y ↦ rw (x, y) refl
    | inr (v, y) ↦ rw (x, y) (ap (tally q (succ_int (succ_int num))) (omega arith))
  ]
]

-- A message more at the head.
tally-head :
    (b : Msgbuf) (q p : List Msgbuf)
    → ((num vol : ℕ) → tally q num vol ≡ tally p num vol)
    → (num vol : ℕ) → tally (b ∷ q) num vol ≡ tally (b ∷ p) num vol
unfolding tally
tally-head b q p h num vol = elim (Option-cases (volume_of b)) [
  | inl x ↦ rw x refl
  | inr (v, x) ↦ rw x (h (succ_int num) ((vol + v) % 2 ^ 32))
]

-- The queue without its first message of a type.
abbrev remove : ℕ → List Msgbuf → List Msgbuf
remove t [] = []
remove t (b ∷ q) = if t == type_of b then q else b ∷ remove t q

of_type-same :
    (t : ℕ) (b : Msgbuf) (q : List Msgbuf)
    → (t == type_of b) ≡ true
    → of_type t (b ∷ q) ≡ b ∷ of_type t q
of_type-same t b q e = rw e refl

of_type-other :
    (t : ℕ) (b : Msgbuf) (q : List Msgbuf)
    → (t == type_of b) ≡ false
    → of_type t (b ∷ q) ≡ of_type t q
of_type-other t b q e = rw e refl

abbrev head_or : Msgbuf → List Msgbuf → Msgbuf
head_or x [] = x
head_or x (b ∷ q) = b

tally-remove :
    (t : ℕ) (b : Msgbuf) (box p : List Msgbuf)
    → of_type t p ≡ b ∷ box
    → (num vol : ℕ) → tally p num vol ≡ tally (b ∷ remove t p) num vol
tally-remove t b box [] h = cc
tally-remove t b box (c ∷ p) h = elim (Bool-cases (t == type_of c)) [
  | inl e ↦
      let same : c ≡ b = ap (head_or b) (sym (of_type-same t c p e) ∙ h) in
      rw e (λ num vol. ap (λ x. tally (x ∷ p) num vol) same)
  | inr e ↦
      let there : of_type t p ≡ b ∷ box = sym (of_type-other t c p e) ∙ h in
      rw e (λ num vol.
        tally-head c p (b ∷ remove t p) (tally-remove t b box p there) num vol
        ∙ tally-swap c b (remove t p) num vol)
]

of_type-remove : (t : ℕ) (p : List Msgbuf) → of_type t (remove t p) ≡ drop 1 (of_type t p)
of_type-remove t [] = refl
of_type-remove t (c ∷ p) = elim (Bool-cases (t == type_of c)) [
  | inl e ↦ rw e refl
  | inr e ↦ rw (e, e) (of_type-remove t p)
]

of_type-remove_ne :
    (t u : ℕ) (p : List Msgbuf) → (u == t) ≡ false → of_type u (remove t p) ≡ of_type u p
of_type-remove_ne t u [] ne = refl
of_type-remove_ne t u (c ∷ p) ne = elim (Bool-cases (t == type_of c)) [
  | inl e ↦ let other : (u == type_of c) ≡ false = ground arith in rw (e, other) refl
  | inr e ↦ rw e (ap (λ l. if u == type_of c then c ∷ l else l) (of_type-remove_ne t u p ne))
]

SameBoxes-remove :
    (b : Msgbuf) (q p : List Msgbuf) → SameBoxes (b ∷ q) p → SameBoxes q (remove (type_of b) p)
SameBoxes-remove b q p h t = elim (Bool-cases (t == type_of b)) [
  | inl e ↦
      let type : t ≡ type_of b = ground arith in
      ap (drop 1) (sym (of_type-same t b q e) ∙ h t)
      ∙ sym (of_type-remove t p)
      ∙ ap (λ u. of_type t (remove u p)) type
  | inr e ↦ sym (of_type-other t b q e) ∙ h t ∙ sym (of_type-remove_ne (type_of b) t p e)
]

-- Queues with the same messages of each type, in the same order, have the same number of messages and the same volume, or both have
-- a message without a terminator.
pub SameBoxes-tally :
    (q p : List Msgbuf) → SameBoxes q p → (num vol : ℕ) → tally q num vol ≡ tally p num vol
SameBoxes-tally [] [] h num vol = refl
SameBoxes-tally [] (c ∷ p) h num vol =
    absurd (apart (h (type_of c) ∙ of_type-same (type_of c) c p (==_refl (type_of c))))
  where
    apart : {x : Msgbuf} {xs : List Msgbuf} → ◌≡◌ {A = List Msgbuf} [] (x ∷ xs) → ⊥
    apart e = cc
SameBoxes-tally (b ∷ q) p h num vol =
    let t = type_of b in
    let first : of_type t p ≡ b ∷ of_type t q = sym (h t) ∙ of_type-same t b q (==_refl t) in
    tally-head b q (remove t p) (SameBoxes-tally q (remove t p) (SameBoxes-remove b q p h)) num vol
    ∙ sym (tally-remove t b (of_type t q) p first num vol)
