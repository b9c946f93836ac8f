-- ===== src/SpinBuffer/Tests.antt =====
-- A run of the buffer: two readers after one writer.
use embedded_system_software.Base.{ℕ, ◌≡◌, refl, List, ◌∷◌, replicate}
use embedded_system_software.Kernel.{serving, no_calls, vmalloc}
use embedded_system_software.SpinBuffer.{
  Driver, read, write, simple_spin_ioctl, simple_spin_read, simple_spin_write,
}

abbrev text : List ℕ
text = 2 ∷ 0 ∷ 0 ∷ 0 ∷ b'h' ∷ b'i' ∷ replicate 126 0

abbrev blank : List ℕ
blank = replicate 132 7

abbrev loaded : Driver
loaded = record { kern_buf = replicate 132 0; heap = vmalloc no_calls }

abbrev after_writer : Driver
after_writer = (simple_spin_ioctl serving loaded (write text)).2

text-read : (simple_spin_ioctl serving after_writer (read blank)).1 ≡ text
unfolding simple_spin_ioctl simple_spin_read simple_spin_write
text-read = refl

text-gone :
    (simple_spin_ioctl serving
      (simple_spin_ioctl serving after_writer (read blank)).2
      (read blank)).1
    ≡ replicate 132 0
unfolding simple_spin_ioctl simple_spin_read simple_spin_write
text-gone = refl
