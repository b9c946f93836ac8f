-- ===== src/Base/Family.antt =====
-- Families of values with a number for each: memory by address, threads by index.
use Prim.Native.Nat.{ℕ}
use native.Mathlib.Omega.{arith}
use mathlib.Core.Path.{◌≡◌, refl, sym, ap, subst, ◌∙◌}
use mathlib.Core.Logic.{◌≢◌}
use mathlib.Core.Option.{Option, none, some}
use embedded_system_software.Base.Tests.{◌==◌, ==_refl, if◌then◌else◌}

-- `update f i v` is `f` but for `v` at `i`.
abbrev pub update {ℓ} : {A : Type ℓ} → (ℕ → A) → ℕ → A → ℕ → A
update f i v j = if i == j then v else f j

pub update_self {ℓ} : {A : Type ℓ} (f : ℕ → A) (i : ℕ) (v : A) → update f i v i ≡ v
update_self f i v = rw (==_refl i) refl

pub update_ne {ℓ} : {A : Type ℓ} (f : ℕ → A) (i j : ℕ) (v : A) → i ≢ j → update f i v j ≡ f j
update_ne f i j v d = ground arith

-- Memory by address holds nothing where it is not in use.
abbrev pub IsSome {ℓ} : {A : Type ℓ} → Option A → Type 0
IsSome none = ⊥
IsSome (some n) = Unit {0}

pub IsSome-value {ℓ} : {A : Type ℓ} (o : Option A) → IsSome o → (n : A) × (o ≡ some n)
IsSome-value none h = absurd h
IsSome-value (some n) h = (n, refl)

pub update-none : (f : ℕ → Option ℕ) (i j : ℕ) → f j ≡ none → update f i none j ≡ none
update-none f i j e = ground arith

-- Two addresses differ when one is in use and the other is not.
pub some-ne-none : (f : ℕ → Option ℕ) (x y : ℕ) → IsSome (f x) → f y ≡ none → y ≢ x
some-ne-none f x y h e p = subst IsSome (ap f (sym p) ∙ e) h
