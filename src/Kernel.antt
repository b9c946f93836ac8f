-- ===== src/Kernel.antt =====
-- What the drivers use of the Linux kernel, which is not part of the repository: the user-copy
-- functions and the allocators. How many bytes a copy leaves out and whether an allocation succeeds
-- are parameters, one `Kernel` for each call of a driver.
use embedded_system_software.Base.{ℕ, ◌-◌, ◌≤◌, ◌≡◌, refl, Bool, true, List, length, suc, arith}

pub record Kernel : Type 0 where
  -- `copy_from_user` and `copy_to_user`: the bytes that could not be copied, out of `n`, when the
  -- user pointer leads to this memory
  pub from_user : List ℕ → ℕ → ℕ
  pub to_user : List ℕ → ℕ → ℕ
  -- whether `vmalloc` and `kmalloc` return a pointer other than NULL
  pub vmalloc_ok : Bool
  pub kmalloc_ok : Bool

-- The documented behaviour: a copy leaves out no more than was asked, and nothing when the memory
-- is there; and the allocators have memory.
pub record IsServing (k : Kernel) : Type 0 where
  pub from_all : (u : List ℕ) (n : ℕ) → n ≤ length u → k.from_user u n ≡ 0
  pub to_all : (u : List ℕ) (n : ℕ) → n ≤ length u → k.to_user u n ≡ 0
  pub vmalloc_serves : k.vmalloc_ok ≡ true
  pub kmalloc_serves : k.kmalloc_ok ≡ true

-- How often a module has called each allocator and each release function.
pub record Heap : Type 0 where
  pub kmallocs : ℕ
  pub kfrees : ℕ
  pub vmallocs : ℕ
  pub vfrees : ℕ

abbrev pub no_calls : Heap
no_calls = record { kmallocs = 0; kfrees = 0; vmallocs = 0; vfrees = 0 }

abbrev pub kmalloc : Heap → Heap
kmalloc h = record h { kmallocs = suc h.kmallocs }

abbrev pub kfree : Heap → Heap
kfree h = record h { kfrees = suc h.kfrees }

abbrev pub vmalloc : Heap → Heap
vmalloc h = record h { vmallocs = suc h.vmallocs }

abbrev pub vfree : Heap → Heap
vfree h = record h { vfrees = suc h.vfrees }

-- A kernel that copies everything and has memory.
abbrev pub serving : Kernel
serving = record {
  from_user = λ u n. n - length u;
  to_user = λ u n. n - length u;
  vmalloc_ok = true;
  kmalloc_ok = true;
}

pub serving-IsServing : IsServing serving
serving-IsServing = record {
  from_all = λ u n h. omega arith;
  to_all = λ u n h. omega arith;
  vmalloc_serves = refl;
  kmalloc_serves = refl;
}
