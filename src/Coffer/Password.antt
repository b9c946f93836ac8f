-- ===== src/Coffer/Password.antt =====
-- When the coffer opens, when it closes, and that it always goes on.
use mathlib.Core.Option
use embedded_system_software.Base.{
  ℕ, ◌+◌, ◌<◌, ◌≡◌, refl, ap, ◌∙◌, inl, inr, Bool, true, false, not, ◌&&◌, ◌||◌, Option, none, some,
  List, [], ◌∷◌, arith, leb, Bool-cases, get_or, is_negative,
}
use embedded_system_software.Coffer.{
  Reply, Action, my_password, differs, read_presses, Coffer, verdict, round,
}

-- A round leaves the coffer open.
abbrev pub opens : Option (List Action × Coffer) → Bool
opens none = false
opens (some (acts, c)) = c.is_open

-- The replies begin with the entries of a password, and one more reply follows.
abbrev pub begins_with : List (ℕ × ℕ) → List Reply → Bool
begins_with ps [] = false
begins_with [] (r ∷ rs) = true
begins_with (p ∷ ps) (r ∷ rs) = not (differs p r) && begins_with ps rs

abbrev opens_from : ℕ → List Reply → Bool → Bool
opens_from k rs incorrect = opens (Option.map verdict (read_presses rs k incorrect))

or_true : (b : Bool) → (b || true) ≡ true
or_true true = refl
or_true false = refl

and_false : (b : Bool) → (b && false) ≡ false
and_false true = refl
and_false false = refl

not_five : (k : ℕ) → k < 5 → leb 5 k ≡ false
not_five k h = ground arith

-- A failed receive is no right press.
differs-negative : (p : ℕ × ℕ) (r : Reply) → is_negative r.ret ≡ true → differs p r ≡ true
differs-negative (b, far) r h = ground arith

-- One wrong press is enough.
opens_from-incorrect : (k : ℕ) (rs : List Reply) → opens_from k rs true ≡ false
unfolding read_presses
opens_from-incorrect k [] = refl
opens_from-incorrect k (r ∷ rs) = elim (Bool-cases (is_negative r.ret || leb 5 k)) [
  | inl stop ↦ rw stop (ground arith)
  | inr on ↦
      rw (on, or_true (differs (get_or my_password k (0, 0)) r)) (opens_from-incorrect (k + 1) rs)
]

opens_from-on :
    (k : ℕ) (p : ℕ × ℕ) (r : Reply) (rs : List Reply)
    → opens_from (k + 1) rs (differs p r || false)
      ≡ not (differs p r) && opens_from (k + 1) rs false
opens_from-on k p r rs = elim (Bool-cases (differs p r)) [
  | inl wrong ↦ rw wrong (opens_from-incorrect (k + 1) rs)
  | inr right ↦ rw right refl
]

opens_from-cons :
    (k : ℕ) (r : Reply) (rs : List Reply)
    → k < 5
    → opens_from k (r ∷ rs) false
      ≡ not (differs (get_or my_password k (0, 0)) r) && opens_from (k + 1) rs false
unfolding read_presses
opens_from-cons k r rs h = elim (Bool-cases (is_negative r.ret)) [
  | inl stop ↦ rw (stop, differs-negative (get_or my_password k (0, 0)) r stop) (ground arith)
  | inr on ↦ rw (on, not_five k h) (opens_from-on k (get_or my_password k (0, 0)) r rs)
]

opens_from-last : (rs : List Reply) → opens_from 5 rs false ≡ begins_with [] rs
unfolding read_presses
opens_from-last [] = refl
opens_from-last (r ∷ rs) = elim (Bool-cases (is_negative r.ret)) [
  | inl stop ↦ rw stop refl
  | inr on ↦ rw on refl
]

-- One entry of the password, and the replies that the rest of it is held against.
from_entry :
    (k : ℕ) (ps : List (ℕ × ℕ)) (rs : List Reply)
    → k < 5
    → ((rs : List Reply) → opens_from (k + 1) rs false ≡ begins_with ps rs)
    → opens_from k rs false ≡ begins_with (get_or my_password k (0, 0) ∷ ps) rs
unfolding read_presses
from_entry k ps [] h later = refl
from_entry k ps (r ∷ rs) h later =
    opens_from-cons k r rs h
    ∙ ap (λ x. not (differs (get_or my_password k (0, 0)) r) && x) (later rs)

-- A closed coffer opens in a round exactly when the first five replies are the password, press by press, and a sixth
-- reply ends the loop; what the sixth is makes no difference.
pub round-opens :
    (rs : List Reply)
    → opens (round (record { is_open = false; replies = rs })) ≡ begins_with my_password rs
unfolding round
round-opens rs = from_entry 0 _ rs (omega arith) λ r1. from_entry 1 _ r1 (omega arith) λ r2.
    from_entry 2 _ r2 (omega arith)
      λ r3. from_entry 3 _ r3 (omega arith) λ r4. from_entry 4 _ r4 (omega arith) opens_from-last
