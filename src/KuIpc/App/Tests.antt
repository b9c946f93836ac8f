-- ===== src/KuIpc/App/Tests.antt =====
-- The run of ku_ipc_app on a driver that has just been loaded.
use embedded_system_software.Base.{
  ℕ, ◌≡◌, refl, Option, none, some, List, [], ◌∷◌, replicate, ℤ, pos,
}
use embedded_system_software.Kernel.{serving}
use embedded_system_software.Libc.{posix}
use embedded_system_software.MsgList.Programs.{text_of}
use embedded_system_software.KuIpc.{zeroed, msgget, msgclose, msgsnd, msgrcv, ioctl, init}
use embedded_system_software.KuIpc.Client.{
  Process, retry, received_length, ku_msgget, ku_msgclose, ku_msgsnd, ku_msgrcv,
}
use embedded_system_software.KuIpc.App.{Ending, done, app_main, send_all, read_all, blocked}

abbrev fresh : Process
fresh = record { queue_use = replicate 10 0; driver = (init (pos 0)).1 }

abbrev printed : Option Ending → List (List ℕ × ℤ)
printed none = []
printed (some (blocked p)) = []
printed (some (done lines p)) = lines

-- The five messages that are read come in the order in which they were sent; the sixth stays.
main-printed :
    printed (app_main posix serving (pos 3) fresh)
    ≡ (b'h' ∷ b'e' ∷ b'l' ∷ b'l' ∷ b'o' ∷ [], pos 14)
      ∷ (b'b' ∷ b'y' ∷ b'e' ∷ b'1' ∷ [], pos 13)
      ∷ (b'b' ∷ b'y' ∷ b'e' ∷ b'2' ∷ [], pos 13)
      ∷ (b'b' ∷ b'y' ∷ b'e' ∷ b'3' ∷ [], pos 13)
      ∷ (b'b' ∷ b'y' ∷ b'e' ∷ b'4' ∷ [], pos 13)
      ∷ []
unfolding app_main send_all read_all ku_msgget ku_msgclose ku_msgsnd ku_msgrcv retry received_length
    ioctl msgget msgclose msgsnd msgrcv init text_of zeroed
main-printed = refl
