-- ===== src/MsgList/Programs/Tests.antt =====
-- Programs of the message list that one starts, and a word that is too long.
use embedded_system_software.Base.{ℕ, ◌≡◌, refl, none, some, List, [], ◌∷◌, arith, replicate, pos}
use embedded_system_software.Kernel.{serving, serving-IsServing, no_calls}
use embedded_system_software.Libc.{posix, posix-IsLibc}
use embedded_system_software.MsgList.{Driver}
use embedded_system_software.MsgList.Programs.{
  Program, writer, reader, typed_message, run_programs, word_of, skip_blanks,
}
use embedded_system_software.MsgList.Programs.Words.{Holds, served, run_programs-served}

-- " hi\n"
abbrev keys : List ℕ
keys = 32 ∷ b'h' ∷ b'i' ∷ 10 ∷ []

abbrev stack : List ℕ
stack = replicate 132 7

abbrev programs : List Program
programs =
    reader serving (pos 3) stack ∷ writer serving (pos 3) keys ∷ reader serving (pos 3) stack ∷ []

abbrev empty : Driver
empty = record { messages = []; heap = no_calls }

run_programs-served_example :
    (t : Driver) × (run_programs posix programs empty ≡ some ((served programs []).0, t))
    × Holds (served programs []).1 t
unfolding word_of skip_blanks
run_programs-served_example =
    run_programs-served posix programs [] empty posix-IsLibc
      (
        serving-IsServing,
        refl,
        refl,
        (serving-IsServing, refl, omega arith, (serving-IsServing, refl, refl, tt)),
      )
      (record { texts = refl; fit = tt })

-- A word of 128 letters leaves no room for the terminator.
typed_message-overflows : typed_message (replicate 128 b'a') ≡ none
unfolding typed_message word_of skip_blanks
typed_message-overflows = refl
