-- ===== src/Base/Lists.antt =====
-- C arrays and kernel lists as lists measured and indexed by native numbers.
use Prim.Native.Nat.{ℕ, zero, suc, ◌+◌, ◌-◌, ◌≤◌, ◌<◌, min}
use mathlib.Core.Path.{◌≡◌, refl, ap, subst, sym}
use mathlib.Core.Logic.{◌≢◌}
use mathlib.Core.List.{List, [], ◌∷◌, ◌++◌}
use mathlib.Core.Option.{Option, none, some, some-injective}
use native.Mathlib.Omega.{arith}

module _ {ℓ} {A : Type ℓ} where
  abbrev pub length : List A → ℕ
  length [] = 0
  length (x ∷ xs) = suc (length xs)

  abbrev pub get_elem? : List A → ℕ → Option A
  get_elem? [] i = none
  get_elem? (x ∷ xs) zero = some x
  get_elem? (x ∷ xs) (suc i) = get_elem? xs i

  abbrev pub get_or : List A → ℕ → A → A
  get_or [] i d = d
  get_or (x ∷ xs) zero d = x
  get_or (x ∷ xs) (suc i) d = get_or xs i d

  -- A write out of bounds changes nothing.
  abbrev pub set : List A → ℕ → A → List A
  set [] i v = []
  set (x ∷ xs) zero v = v ∷ xs
  set (x ∷ xs) (suc i) v = x ∷ set xs i v

  abbrev pub take : ℕ → List A → List A
  take zero xs = []
  take (suc n) [] = []
  take (suc n) (x ∷ xs) = x ∷ take n xs

  abbrev pub drop : ℕ → List A → List A
  drop zero xs = xs
  drop (suc n) [] = []
  drop (suc n) (x ∷ xs) = drop n xs

  abbrev pub replicate : ℕ → A → List A
  replicate zero a = []
  replicate (suc n) a = a ∷ replicate n a

  -- The first bytes of a buffer overwritten by a source that may be shorter.
  abbrev pub overlay : List A → List A → List A
  overlay src [] = []
  overlay [] (d ∷ dst) = d ∷ dst
  overlay (x ∷ src) (d ∷ dst) = x ∷ overlay src dst

  -- A predicate of every entry, by recursion, so that tactics read it as a tuple.
  abbrev pub All {κ} : (A → Type κ) → List A → Type κ
  All P [] = Unit
  All P (x ∷ xs) = P x × All P xs

module _ {ℓ} {A : Type ℓ} where
  -- The entries of all lists together.
  abbrev pub total : List (List A) → ℕ
  total [] = 0
  total (q ∷ qs) = length q + total qs

  pub length-append : (xs ys : List A) → length (xs ++ ys) ≡ length xs + length ys
  length-append [] ys = omega arith
  length-append (x ∷ xs) ys = omega (arith, length-append xs ys)

  pub length-set : (xs : List A) (i : ℕ) (v : A) → length (set xs i v) ≡ length xs
  length-set [] i v = refl
  length-set (x ∷ xs) zero v = refl
  length-set (x ∷ xs) (suc i) v = ap suc (length-set xs i v)

  pub get_elem?-set_self :
      (xs : List A) (i : ℕ) (v : A) → i < length xs → get_elem? (set xs i v) i ≡ some v
  get_elem?-set_self [] i v h = elim h [ ]
  get_elem?-set_self (x ∷ xs) zero v h = refl
  get_elem?-set_self (x ∷ xs) (suc i) v h = get_elem?-set_self xs i v (omega arith)

  pub get_elem?-set_ne :
      (xs : List A) {i j : ℕ} (v : A) → i ≢ j → get_elem? (set xs i v) j ≡ get_elem? xs j
  get_elem?-set_ne [] v h = refl
  get_elem?-set_ne (x ∷ xs) {i = zero} {j = zero} v h = absurd (h refl)
  get_elem?-set_ne (x ∷ xs) {i = zero} {j = suc j} v h = refl
  get_elem?-set_ne (x ∷ xs) {i = suc i} {j = zero} v h = refl
  get_elem?-set_ne (x ∷ xs) {i = suc i} {j = suc j} v h = get_elem?-set_ne xs v (λ e. h (ap suc e))

  pub set-set :
      (xs : List A) (i : ℕ) (v x : A) → get_elem? xs i ≡ some x → set (set xs i v) i x ≡ xs
  set-set [] i v x e = refl
  set-set (y ∷ xs) zero v x e = ap (λ z. z ∷ xs) (sym (some-injective y x e))
  set-set (y ∷ xs) (suc i) v x e = ap (◌∷◌ y) (set-set xs i v x e)

  pub get_elem?-lt : (xs : List A) (i : ℕ) → i < length xs → (x : A) × (get_elem? xs i ≡ some x)
  get_elem?-lt [] i h = elim h [ ]
  get_elem?-lt (x ∷ xs) zero h = (x, refl)
  get_elem?-lt (x ∷ xs) (suc i) h = get_elem?-lt xs i (omega arith)

  pub get_elem?-none : (xs : List A) (i : ℕ) → length xs ≤ i → get_elem? xs i ≡ none
  get_elem?-none [] i h = refl
  get_elem?-none (x ∷ xs) zero h = absurd (omega arith)
  get_elem?-none (x ∷ xs) (suc i) h = get_elem?-none xs i (omega arith)

  pub lt_of_get_elem? : (xs : List A) (i : ℕ) (x : A) → get_elem? xs i ≡ some x → i < length xs
  lt_of_get_elem? [] i x e = ground arith
  lt_of_get_elem? (y ∷ xs) zero x e = omega arith
  lt_of_get_elem? (y ∷ xs) (suc i) x e = omega (arith, lt_of_get_elem? xs i x e)

  pub length-overlay : (src dst : List A) → length (overlay src dst) ≡ length dst
  length-overlay src [] = refl
  length-overlay [] (d ∷ dst) = refl
  length-overlay (x ∷ src) (d ∷ dst) = ap suc (length-overlay src dst)

  pub length-take : (n : ℕ) (xs : List A) → length (take n xs) ≡ min n (length xs)
  length-take zero xs = omega arith
  length-take (suc n) [] = omega arith
  length-take (suc n) (x ∷ xs) = omega (arith, length-take n xs)

  pub length-drop : (n : ℕ) (xs : List A) → length (drop n xs) ≡ length xs - n
  length-drop zero xs = omega arith
  length-drop (suc n) [] = omega arith
  length-drop (suc n) (x ∷ xs) = omega (arith, length-drop n xs)

  pub length-replicate : (n : ℕ) (a : A) → length (replicate n a) ≡ n
  length-replicate zero a = refl
  length-replicate (suc n) a = ap suc (length-replicate n a)

  -- A whole source that fits is found again at the front of the buffer.
  pub take-overlay :
      (src dst : List A) → length src ≤ length dst → take (length src) (overlay src dst) ≡ src
  take-overlay [] dst h = refl
  take-overlay (x ∷ src) [] h = absurd (omega arith)
  take-overlay (x ∷ src) (d ∷ dst) h = ap (◌∷◌ x) (take-overlay src dst (omega arith))

  pub take_all : (xs : List A) → take (length xs) xs ≡ xs
  take_all [] = refl
  take_all (x ∷ xs) = ap (◌∷◌ x) (take_all xs)

  pub overlay-append :
      (src dst : List A) → length src ≤ length dst → overlay src dst ≡ src ++ drop (length src) dst
  overlay-append [] [] h = refl
  overlay-append [] (d ∷ dst) h = refl
  overlay-append (x ∷ src) [] h = absurd (omega arith)
  overlay-append (x ∷ src) (d ∷ dst) h = ap (◌∷◌ x) (overlay-append src dst (omega arith))

  module _ {κ} (P : A → Type κ) where
    pub All-append : (xs ys : List A) → All P xs → All P ys → All P (xs ++ ys)
    All-append [] ys hx hy = hy
    All-append (x ∷ xs) ys hx hy = (hx.0, All-append xs ys hx.1 hy)

    pub All-get_elem? : (xs : List A) (i : ℕ) (x : A) → All P xs → get_elem? xs i ≡ some x → P x
    All-get_elem? [] i x h e = cc
    All-get_elem? (y ∷ xs) zero x h e = subst P (some-injective y x e) h.0
    All-get_elem? (y ∷ xs) (suc i) x h e = All-get_elem? xs i x h.1 e

    pub All-set : (xs : List A) (i : ℕ) (v : A) → P v → All P xs → All P (set xs i v)
    All-set [] i v p h = tt
    All-set (x ∷ xs) zero v p h = (p, h.1)
    All-set (x ∷ xs) (suc i) v p h = (h.0, All-set xs i v p h.1)

module _ {ℓ} {A : Type ℓ} where
  pub total-set :
      (qs : List (List A)) (i : ℕ) (q q' : List A)
      → get_elem? qs i ≡ some q
      → total (set qs i q') + length q ≡ total qs + length q'
  total-set [] i q q' e = ground arith
  total-set (p ∷ qs) zero q q' e = ground (arith, ap length (some-injective p q e))
  total-set (p ∷ qs) (suc i) q q' e = omega (arith, total-set qs i q q' e)
