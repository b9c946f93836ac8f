-- ===== src/Actuator.antt =====
-- What an actuator driver does: it writes levels to its pins and waits.
use embedded_system_software.Base.{
  ℕ, zero, suc, ◌+◌, ◌*◌, ◌≡◌, refl, List, [], ◌∷◌, ◌++◌, arith, ◌==◌, if◌then◌else◌,
}

-- `gpio_set_value(pin, level)`, `udelay` in microseconds and `mdelay` in milliseconds.
pub data Action : Type 0 where
  write : ℕ → ℕ → Action
  udelay mdelay : ℕ → Action

-- A counted loop, whose body runs once for each round.
unfoldable pub repeat {ℓ} : {A : Type ℓ} → ℕ → List A → List A
repeat zero body = []
repeat (suc n) body = body ++ repeat n body

-- The microseconds that a list of actions waits.
unfoldable pub duration : List Action → ℕ
duration [] = 0
duration (write pin level ∷ acts) = duration acts
duration (udelay n ∷ acts) = n + duration acts
duration (mdelay n ∷ acts) = 1000 * n + duration acts

pub duration-append : (xs ys : List Action) → duration (xs ++ ys) ≡ duration xs + duration ys
unfolding duration
duration-append [] ys = omega arith
duration-append (write pin level ∷ xs) ys = duration-append xs ys
duration-append (udelay n ∷ xs) ys = omega (arith, duration-append xs ys)
duration-append (mdelay n ∷ xs) ys = omega (arith, duration-append xs ys)

pub duration-repeat : (n : ℕ) (xs : List Action) → duration (repeat n xs) ≡ n * duration xs
unfolding duration repeat
duration-repeat zero xs = omega arith
duration-repeat (suc n) xs = omega (arith, duration-append xs (repeat n xs), duration-repeat n xs)

-- The level of a pin after a list of actions, from the level before.
unfoldable pub level_after : ℕ → ℕ → List Action → ℕ
level_after pin l [] = l
level_after pin l (write p v ∷ acts) = level_after pin (if p == pin then v else l) acts
level_after pin l (udelay n ∷ acts) = level_after pin l acts
level_after pin l (mdelay n ∷ acts) = level_after pin l acts

pub level_after-append :
    (pin l : ℕ) (xs ys : List Action)
    → level_after pin l (xs ++ ys) ≡ level_after pin (level_after pin l xs) ys
unfolding level_after
level_after-append pin l [] ys = refl
level_after-append pin l (write p v ∷ xs) ys =
    level_after-append pin (if p == pin then v else l) xs ys
level_after-append pin l (udelay n ∷ xs) ys = level_after-append pin l xs ys
level_after-append pin l (mdelay n ∷ xs) ys = level_after-append pin l xs ys

-- `gpio_free(pin)`: the pins that stay requested.
abbrev pub gpio_free : ℕ → List ℕ → List ℕ
gpio_free pin [] = []
gpio_free pin (p ∷ pins) = if p == pin then pins else p ∷ gpio_free pin pins
