-- ===== src/SwitchLight/Sampling.antt =====
-- The light of ch7_mod.c shows the switch as it was at the last half second.
use embedded_system_software.Base.{
  ℕ, ◌+◌, ◌-◌, ◌%◌, ◌^◌, ◌<◌, ◌≡◌, refl, ap, ◌∙◌, inl, inr, Bool, true, false, none, some, List, [],
  ◌∷◌, arith, ◌==◌, if◌then◌else◌, Bool-cases,
}
use embedded_system_software.SwitchLight.{Light, my_timer_func, ch7_mod_init, tick, run}

-- The switch as it was at the last multiple of the delay, which comes in `left` jiffies, when the light is `shown` before.
abbrev pub sampled : ℕ → ℕ → Bool → List Bool → Bool
sampled delay left shown [] = shown
sampled delay left shown (switch ∷ later) =
    if left == 1 then sampled delay delay switch later else sampled delay (left - 1) shown later

module _ (switch : Bool) (s : Light) (left : ℕ) (small : left < 2 ^ 31)
    (due : s.expires ≡ some ((s.jiffies + left) % 2 ^ 32)) where
  tick-fires :
      (left == 1) ≡ true
      → tick switch s
        ≡ my_timer_func switch (record s { expires = none; jiffies = (s.jiffies + 1) % 2 ^ 32 })
  unfolding tick
  tick-fires now =
      let same : ((s.jiffies + left) % 2 ^ 32 == (s.jiffies + 1) % 2 ^ 32) ≡ true = ground arith in
      rw (due, same) refl

  tick-waits :
      0 < left
      → (left == 1) ≡ false
      → tick switch s ≡ record s { jiffies = (s.jiffies + 1) % 2 ^ 32 }
  unfolding tick
  tick-waits waits later =
      let other : ((s.jiffies + left) % 2 ^ 32 == (s.jiffies + 1) % 2 ^ 32) ≡ false =
        ground arith in
      rw (due, other) (ground (arith, due))

run-sampled :
    (delay left : ℕ) (later : List Bool) (s : Light)
    → 0 < delay
    → delay < 2 ^ 31
    → 0 < left
    → left < 2 ^ 31
    → s.delay_jiffies ≡ delay
    → s.expires ≡ some ((s.jiffies + left) % 2 ^ 32)
    → (run later s).led ≡ sampled delay left s.led later
unfolding run my_timer_func
run-sampled delay left [] s positive short waits small same due = refl
run-sampled delay left (switch ∷ later) s positive short waits small same due =
    elim (Bool-cases (left == 1)) [
      | inl now ↦
          let t =
            my_timer_func switch
              (record s { expires = none; jiffies = (s.jiffies + 1) % 2 ^ 32 }) in
          rw now (
            ap (λ r. (run later r).led) (tick-fires switch s left small due now)
            ∙ run-sampled delay delay later t positive short positive short same
                (ap (λ d. some (((s.jiffies + 1) % 2 ^ 32 + d) % 2 ^ 32)) same))
      | inr wait ↦
          let t : Light = record s { jiffies = (s.jiffies + 1) % 2 ^ 32 } in
          rw wait (
            ap (λ r. (run later r).led) (tick-waits switch s left small due waits wait)
            ∙ run-sampled delay (left - 1) later t positive short (ground arith) (omega arith) same
                (due ∙ ap some (ground arith)))
    ]

-- With a delay of at least a jiffy and less than 2 ^ 31 the light shows the switch of the last jiffy that is a whole number of delays after the
-- loading, and is off before the first of them.
led-sampled :
    (delay jiffies : ℕ)
    → 0 < delay
    → delay < 2 ^ 31
    → (later : List Bool)
    → (run later (ch7_mod_init delay jiffies)).led ≡ sampled delay delay false later
led-sampled delay jiffies positive short later =
    run-sampled delay delay later (ch7_mod_init delay jiffies) positive short positive short refl
      refl
