-- ===== src/SimpleSwitch/Tests.antt =====
-- A button that is pushed five times.
use embedded_system_software.Base.{ℕ, ◌≡◌, refl, some, List, [], ◌∷◌}
use embedded_system_software.SimpleSwitch.{
  simple_switch_init, simple_switch_exit, read_until, ret, pushed,
}

abbrev samples : List ℕ
samples = 1 ∷ 0 ∷ 1 ∷ 1 ∷ 1 ∷ 1 ∷ 1 ∷ []

-- The sixth reading is the last.
init-lines :
    simple_switch_init samples
    ≡ some (
      ret 1
          ∷ pushed 1
          ∷ ret 0
          ∷ ret 1
          ∷ pushed 2
          ∷ ret 1
          ∷ pushed 3
          ∷ ret 1
          ∷ pushed 4
          ∷ ret 1
          ∷ pushed 5
          ∷ [],
      12 ∷ [],
    )
unfolding simple_switch_init read_until
init-lines = refl

exit-released : simple_switch_exit (12 ∷ []) ≡ []
exit-released = refl
