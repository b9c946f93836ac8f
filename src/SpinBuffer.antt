-- ===== src/SpinBuffer.antt =====
-- basic_kernel_functions/exercise2/simple_spin.c: one buffer under a spin lock, which a read empties. A call is one step:
-- the delay of a read comes before it takes the lock. `none` is a fault.
mod Tests
pub mod Programs
use embedded_system_software.Base.{
  ℕ, ◌-◌, ◌≤◌, ◌≡◌, refl, subst, ◌∙◌, Bool, Option, none, some, List, [], arith, if◌then◌else◌,
  length, take, replicate, overlay, length-overlay, length-take, take-overlay, ℤ, is_negative,
  ok_code, minus_one, as_int,
}
use embedded_system_software.Kernel.{Kernel, IsServing, Heap, no_calls, vmalloc, vfree}

-- `sizeof(struct str_st)`
abbrev pub str_size : ℕ
str_size = 132

-- `kern_buf` as its bytes, and the calls of the allocators.
pub record Driver : Type 0 where
  pub kern_buf : List ℕ
  pub heap : Heap

unfoldable pub simple_spin_read : Kernel → List ℕ → Driver → ℤ × List ℕ × Driver
simple_spin_read k user s = (
  as_int (k.to_user user str_size),
  overlay (take (str_size - k.to_user user str_size) s.kern_buf) user,
  record s { kern_buf = replicate str_size 0 },
)

-- `copy_from_user` fills with zeros what it cannot copy.
unfoldable pub simple_spin_write : Kernel → List ℕ → Driver → ℤ × Driver
simple_spin_write k user s = (
  as_int (k.from_user user str_size),
  record s {
    kern_buf = overlay (take (str_size - k.from_user user str_size) user) (replicate str_size 0);
  },
)

-- The commands, with the user memory that the argument leads to.
pub data Request : Type 0 where
  read write unknown : List ℕ → Request

-- The results of the two functions are printed; the call itself always returns 0.
unfoldable pub simple_spin_ioctl : Kernel → Driver → Request → ℤ × List ℕ × Driver
simple_spin_ioctl k s (read user) =
    (ok_code, (simple_spin_read k user s).1, (simple_spin_read k user s).2)
simple_spin_ioctl k s (write user) = (ok_code, user, (simple_spin_write k user s).1)
simple_spin_ioctl k s (unknown user) = (ok_code, user, s)

-- The first argument is what `cdev_add` returns, the second whether `vmalloc` succeeds, which is not tested.
unfoldable pub simple_spin_init : ℤ → Bool → Option (ℤ × Driver)
simple_spin_init added vmalloc_ok =
    if is_negative added
    then some (minus_one, record { kern_buf = []; heap = no_calls })
    else if vmalloc_ok
    then some (ok_code, record { kern_buf = replicate str_size 0; heap = vmalloc no_calls })
    else none

unfoldable pub simple_spin_exit : Driver → Heap
simple_spin_exit s = vfree s.heap

take-filled :
    (n : ℕ) (u dst : List ℕ)
    → n ≤ length u
    → n ≤ length dst
    → take n (overlay (take n u) dst) ≡ take n u
take-filled n u dst h there =
    let e : length (take n u) ≡ n = omega (arith, length-take n u) in
    subst (λ j. take j (overlay (take n u) dst) ≡ take n u) e
      (take-overlay (take n u) dst (omega arith))

-- What one process writes the next reader gets, byte for byte, and the reader after it gets zeros, whatever the buffer
-- held; the memory on all sides has the size of the structure and the kernel copies all of it.
simple_spin_write-read :
    (k : Kernel) (user first second : List ℕ) (s : Driver)
    → IsServing k
    → str_size ≤ length user
    → str_size ≤ length first
    → str_size ≤ length second
    → let t = (simple_spin_ioctl k s (write user)).2 in
      let r = simple_spin_ioctl k t (read first) in
      let r' = simple_spin_ioctl k r.2 (read second) in
      (take str_size r.1 ≡ take str_size user) × (r'.1 ≡ overlay (replicate str_size 0) second)
unfolding simple_spin_ioctl simple_spin_read simple_spin_write
simple_spin_write-read k user first second s serves u f g =
    let zeros : List ℕ = replicate str_size 0 in
    let stored = overlay (take str_size user) zeros in
    let size : length stored ≡ str_size = length-overlay (take str_size user) zeros in
    rw
      (
        serves.from_all user str_size u,
        serves.to_all first str_size f,
        serves.to_all second str_size g,
      )
      (
        take-filled str_size stored first (omega arith) f
            ∙ take-filled str_size user zeros u (omega arith),
        refl,
      )
