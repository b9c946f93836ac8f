-- ===== src/BlockingList/Tests.antt =====
-- Runs of the blocking message list.
use embedded_system_software.Base.{ℕ, ◌≡◌, refl, arith, some, List, [], ◌∷◌, ◌++◌, replicate, pos}
use embedded_system_software.Kernel.{serving, serving-IsServing}
use embedded_system_software.BlockingList.{
  System, Event, read, write, resume, wake, run, step, ch4_read, ch4_read_rest, ch4_write, ch4_init,
}
use embedded_system_software.BlockingList.Readers.{Inv, loaded, loaded-Inv}
use embedded_system_software.BlockingList.Fifo.{messages_of, written, delivered, run_calm-fifo}

abbrev short : List ℕ
short = 2 ∷ 0 ∷ 0 ∷ 0 ∷ b'h' ∷ b'i' ∷ replicate 126 0

abbrev history : List Event
history = read serving short ∷ write serving short ∷ wake ∷ resume serving short ∷ []

run_calm-fifo_example :
    (t : System) × (run history (loaded (pos 0)) ≡ some t)
    × (messages_of (loaded (pos 0)) ++ written history
        ≡ delivered history (loaded (pos 0)) ++ messages_of t)
    × Inv t
run_calm-fifo_example =
    run_calm-fifo history (loaded (pos 0))
      (
        (serving-IsServing, omega arith),
        ((serving-IsServing, omega arith, (2, refl)), (tt, ((serving-IsServing, omega arith), tt))),
      )
      tt (loaded-Inv (pos 0))

run-delivers : delivered history (loaded (pos 0)) ≡ short ∷ []
unfolding step ch4_read ch4_read_rest ch4_write ch4_init
run-delivers = refl
