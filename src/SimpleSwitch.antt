-- ===== src/SimpleSwitch.antt =====
-- gpio/exercise2/simple_switch.c: a module whose loading ends with the fifth press of a button; and gpio/exercise1/simple_led.c.
mod Tests
use embedded_system_software.Base.{
  ℕ, zero, suc, ◌+◌, ◌-◌, ◌*◌, ◌/◌, ◌%◌, ◌^◌, ◌≤◌, ◌<◌, bit_and, bit_or, ◌≡◌, refl, sym, ap, subst,
  ◌∙◌, ◌≢◌, ◌↔◌, ◌⊎◌, inl, inr, Bool, true, false, not, ◌&&◌, ◌||◌, Option, none, some, List, [],
  ◌∷◌, ◌++◌, map, arith, ltb, leb, ◌==◌, if◌then◌else◌, ltb→lt, lt→ltb, le→ltb_false, ==_iff,
  ==_refl, Bool-cases, Option-cases, ◌>>=◌, length, get_elem?, get_or, set, total-set, take, drop,
  replicate, overlay, All, total, total-put_at, length-append, length-set, get_elem?-set_self,
  get_elem?-set_ne, get_elem?-lt, get_elem?-none, set-set, lt_of_get_elem?, length-overlay,
  length-take, length-drop, length-replicate, take-overlay, take_all, append-nil, overlay-append,
  append_assoc, All-append, All-get_elem?, All-set, ℤ, pos, negsuc, ltb_ℤ, eqb_ℤ, is_negative,
  ok_code, minus_one, minus_two, as_int, as_int-small, put_at, length-put_at, at-put_at_self,
  at-put_at_ne, put_at-put_at, All-put_at, All-at, has_flag, strlen, update, update_self, update_ne,
  IsSome, IsSome-value, update-none, some-ne-none,
}
use mathlib.Core.Option
use embedded_system_software.Actuator.{Action, write, mdelay, gpio_free}

-- What the loop prints: what it has read, and the count of the presses.
pub data Line : Type 0 where
  ret : ℕ → Line
  pushed : ℕ → Line

-- The loop of `simple_switch_init`, on what `gpio_get_value` reads in each pass; `none` when it would read on.
unfoldable pub read_until : ℕ → List ℕ → Option (List Line)
read_until count [] = if count == 5 then some [] else none
read_until count (v ∷ vs) =
    let count' = if v == 0 then count else count + 1 in
    let rest = read_until count' vs in
    if count == 5
    then some []
    else Option.map (λ lines. ret v ∷ ((if v == 0 then [] else pushed count' ∷ []) ++ lines)) rest

-- What it prints, and the pins that stay requested; each pass takes a second.
unfoldable pub simple_switch_init : List ℕ → Option (List Line × List ℕ)
simple_switch_init vs = Option.map (λ lines. (lines, 12 ∷ [])) (read_until 0 vs)

abbrev pub simple_switch_exit : List ℕ → List ℕ
simple_switch_exit pins = gpio_free 12 pins

-- How often the button is pushed.
abbrev pub pushes : List ℕ → ℕ
pushes [] = 0
pushes (v ∷ vs) = (if v == 0 then 0 else 1) + pushes vs

map-IsSome : {A B : Type 0} (f : A → B) (o : Option A) → IsSome (Option.map f o) ↔ IsSome o
map-IsSome f none = (λ h. h, λ h. h)
map-IsSome f (some x) = (λ h. h, λ h. h)

ends_later :
    (n m : ℕ) (o : Option (List Line)) (f : List Line → List Line)
    → (IsSome o ↔ (5 ≤ n))
    → n ≡ m
    → IsSome (Option.map f o) ↔ (5 ≤ m)
ends_later n m o f h e = (
  λ u. subst (λ k. 5 ≤ k) e (h.0 ((map-IsSome f o).0 u)),
  λ u. (map-IsSome f o).1 (h.1 (subst (λ k. 5 ≤ k) (sym e) u)),
)

read_until-ends :
    (count : ℕ) (vs : List ℕ) → count ≤ 5 → IsSome (read_until count vs) ↔ (5 ≤ count + pushes vs)
unfolding read_until
read_until-ends count [] h = elim (Bool-cases (count == 5)) [
  | inl five ↦ rw five (λ u. ground arith, λ u. tt)
  | inr other ↦ rw other (λ u. absurd u, λ u. ground arith)
]
read_until-ends count (v ∷ vs) h = elim (Bool-cases (count == 5)) [
  | inl five ↦ rw five (λ u. ground arith, λ u. tt)
  | inr other ↦ elim (Bool-cases (v == 0)) [
    | inl up ↦ rw (other, up) (ends_later _ _ _ _ (read_until-ends count vs h) (omega arith))
    | inr down ↦
        rw (other, down)
          (ends_later _ _ _ _ (read_until-ends (count + 1) vs (ground arith)) (omega arith))
  ]
]

-- The loading ends exactly when the button is read as pushed five times.
init-ends : (vs : List ℕ) → IsSome (simple_switch_init vs) ↔ (5 ≤ pushes vs)
unfolding simple_switch_init
init-ends vs =
    let there : IsSome (simple_switch_init vs) ↔ IsSome (read_until 0 vs) =
      map-IsSome (λ lines. (lines, 12 ∷ [])) (read_until 0 vs) in
    let h = read_until-ends 0 vs (omega arith) in
    (λ u. omega (arith, h.0 (there.0 u)), λ u. there.1 (h.1 (omega arith)))
