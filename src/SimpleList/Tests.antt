-- ===== src/SimpleList/Tests.antt =====
-- Loadings with memory and without.
use embedded_system_software.Base.{
  ℕ, ◌≡◌, refl, true, false, Option, none, some, List, [], ◌∷◌, ◌++◌, replicate,
}
use embedded_system_software.SimpleList.{
  simple_linked_list_init, simple_linked_list_exit, MyList, enter, walk, free_all,
}

abbrev with_memory : Option (List (ℕ × ℕ) × MyList)
with_memory = simple_linked_list_init (replicate 5 true)

abbrev full : MyList
full = record {
  ids = 4 ∷ 3 ∷ 2 ∷ 1 ∷ 0 ∷ [];
  heap = record { kmallocs = 5; kfrees = 0; vmallocs = 0; vfrees = 0 };
}

abbrev reversed : List (ℕ × ℕ)
reversed = (0, 4) ∷ (1, 3) ∷ (2, 2) ∷ (3, 1) ∷ (4, 0) ∷ []

-- Both walks print the ids from the last to the first.
init-reversed : with_memory ≡ some (reversed ++ reversed, full)
unfolding simple_linked_list_init enter walk
init-reversed = refl

exit-reversed :
    simple_linked_list_exit full
    ≡ (reversed, record { kmallocs = 5; kfrees = 5; vmallocs = 0; vfrees = 0 })
unfolding simple_linked_list_exit free_all walk
exit-reversed = refl

-- An allocation that fails is not noticed.
init-faults : simple_linked_list_init (true ∷ false ∷ true ∷ true ∷ true ∷ []) ≡ none
unfolding simple_linked_list_init enter
init-faults = refl
