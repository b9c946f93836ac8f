-- ===== src/BlockApps/Tests.antt =====
-- Commands of the menus and others.
use embedded_system_software.Base.{◌≡◌, refl, none, some, [], ◌∷◌, pos, minus_one}
use embedded_system_software.BlockApps.{
  reader_1, reader_2, writer_1, writer_2, prompt, consumed, produced, wq_ex, wq_wake_up_all,
}

-- A failure is printed as a success.
failure-consumed :
    reader_2 (λ c. minus_one) (pos 2) (pos 3)
    ≡ some (record { printed = prompt ∷ consumed minus_one ∷ []; calls = wq_ex ∷ [] })
unfolding reader_2
failure-consumed = refl

all_woken :
    writer_2 (λ c. pos 0) (pos 2) (pos 7) (pos 3)
    ≡ some (record {
      printed = prompt ∷ prompt ∷ produced (pos 0) ∷ [];
      calls = wq_wake_up_all (pos 7) ∷ [];
    })
unfolding writer_2
all_woken = refl

-- A number that is not in the menu prints a result that no call has given.
no_call : reader_1 (λ c. pos 0) (pos 4) (pos 3) ≡ none
unfolding reader_1
no_call = refl

unopened_writer : (writer_1 (λ c. pos 0) (pos 5) minus_one).calls ≡ []
unfolding writer_1
unopened_writer = refl
