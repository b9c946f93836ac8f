-- ===== src/MsgList/Tests.antt =====
-- A run of the message list.
use mathlib.Core.Option
use embedded_system_software.Base.{
  ℕ, ◌≡◌, refl, none, some, refl, List, [], ◌∷◌, arith, replicate, pos,
}
use embedded_system_software.Kernel.{Kernel, serving, serving-IsServing}
use embedded_system_software.MsgList.{
  Request, read, write, ch3_ioctl, ch3_read, ch3_write, ch3_init,
}
use embedded_system_software.MsgList.Fifo.{message_of, Log, run, Inv, loaded, loaded-Inv, run-fifo}

abbrev short : List ℕ
short = 2 ∷ 0 ∷ 0 ∷ 0 ∷ b'h' ∷ b'i' ∷ replicate 126 0

-- A length of 128 is refused.
abbrev long : List ℕ
long = 128 ∷ replicate 131 0

abbrev history : List (Kernel × Request)
history =
    (serving, read short)
    ∷ (serving, write short)
    ∷ (serving, write long)
    ∷ (serving, read short)
    ∷ []

run-fifo_example : (m : Log) × (run history (loaded (pos 0)) ≡ some m) × Inv m
run-fifo_example =
    run-fifo history (loaded (pos 0))
      (
        serving-IsServing,
        omega arith,
        (
          serving-IsServing,
          (omega arith, (2, refl)),
          (serving-IsServing, (omega arith, (0, refl)), (serving-IsServing, omega arith, tt)),
        ),
      )
      (loaded-Inv (pos 0))

run-delivers :
    Option.map (λ l. l.delivered) (run history (loaded (pos 0))) ≡ some (message_of short ∷ [])
unfolding run ch3_ioctl ch3_read ch3_write ch3_init
run-delivers = refl

-- A text of 128 letters has no terminator; `printk` reads past it.
ch3_ioctl-unterminated :
    ch3_ioctl serving (loaded (pos 0)).driver (write (2 ∷ 0 ∷ 0 ∷ 0 ∷ replicate 128 b'a')) ≡ none
unfolding ch3_ioctl ch3_write
ch3_ioctl-unterminated = refl
