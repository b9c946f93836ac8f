-- ===== src/SpinBuffer/Programs.antt =====
-- simple_spin_writer.c and simple_spin_reader.c in basic_kernel_functions/exercise2. Neither tests what `ioctl` gives; a device
-- that does not open has no effect.
use embedded_system_software.Base.{
  ℕ, ◌≡◌, refl, sym, Bool, true, Option, some, List, [], ◌∷◌, ◌++◌, arith, if◌then◌else◌, length,
  drop, replicate, overlay,
}
use mathlib.Core.Option
use embedded_system_software.Kernel.{Kernel, IsServing}
use embedded_system_software.MsgList.Programs.{text_of, int_bytes}
use embedded_system_software.MsgList.Programs.Words.{overlay_all}
use embedded_system_software.SpinBuffer.{
  Driver, read, write, str_size, simple_spin_ioctl, simple_spin_read, simple_spin_write,
}

-- "reader: hi, writer!"
abbrev pub greeting : List ℕ
greeting =
    b'r' ∷ b'e' ∷ b'a' ∷ b'd' ∷ b'e' ∷ b'r' ∷ 58 ∷ 32 ∷ b'h' ∷ b'i' ∷ 44 ∷ 32 ∷ b'w' ∷ b'r' ∷ b'i'
    ∷ b't' ∷ b'e' ∷ b'r' ∷ 33 ∷ []

-- The struct of the writer: the length, the text, and zeros up to its end.
abbrev pub user_str : List ℕ
user_str = int_bytes 19 ++ overlay greeting (replicate 128 0)

-- `main` of the writer, with whether the device opens.
unfoldable pub writer_main : Kernel → Bool → Driver → Driver
writer_main k opened s = if opened then (simple_spin_ioctl k s (write user_str)).2 else s

-- `main` of the reader: what it prints of its struct, which holds what the stack held when no call was made.
unfoldable pub reader_main : Kernel → Bool → List ℕ → Driver → Option (List ℕ × Driver)
reader_main k opened user s =
    let t = simple_spin_ioctl k s (read user) in
    if opened
    then Option.map (λ text. (text, t.2)) (text_of (drop 4 t.1))
    else Option.map (λ text. (text, s)) (text_of (drop 4 user))

-- The greeting of a writer reaches the reader after it.
writer_main-reader_main :
    (k : Kernel) (user : List ℕ) (s : Driver)
    → IsServing k
    → length user ≡ str_size
    → Option.map (λ t. t.0) (reader_main k true user (writer_main k true s)) ≡ some greeting
unfolding writer_main reader_main simple_spin_ioctl simple_spin_read simple_spin_write text_of
writer_main-reader_main k user s serves there =
    rw
      (
        serves.from_all user_str str_size (omega arith),
        serves.to_all user str_size (omega (arith, there)),
      )
      (rw (overlay_all user_str user (sym there)) refl)
