-- ===== src/BlockingList/Programs/Tests.antt =====
-- A word that is typed, sent and read.
use embedded_system_software.Base.{ℕ, ◌≡◌, refl, some, List, [], ◌∷◌, ◌>>=◌, replicate, pos}
use embedded_system_software.Kernel.{serving, no_calls}
use embedded_system_software.Libc.{posix}
use embedded_system_software.MsgList.Programs.{word_of, skip_blanks, typed_message, text_of}
use embedded_system_software.BlockingList.{Driver, ch4_write}
use embedded_system_software.BlockingList.Programs.{writer_main, reader_main, received}

abbrev empty : Driver
empty = record { messages = []; msg_count = 0; heap = no_calls }

-- "hi\n"
abbrev keys : List ℕ
keys = b'h' ∷ b'i' ∷ 10 ∷ []

hi-printed :
    (writer_main posix serving (pos 3) keys empty >>= λ t.
    reader_main posix serving (pos 3) (replicate 132 7) t.1)
    ≡ some (
      received (b'h' ∷ b'i' ∷ []) ∷ [],
      record {
        messages = [];
        msg_count = 0;
        heap = record { kmallocs = 1; kfrees = 1; vmallocs = 1; vfrees = 1 };
      },
    )
unfolding writer_main reader_main typed_message text_of word_of skip_blanks ch4_write
hi-printed = refl
