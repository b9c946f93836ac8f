-- ===== src/RcuList/Update.antt =====
-- What an update changes for the readers, and that the memory is balanced.
use embedded_system_software.Base.{
  ℕ, ◌+◌, ◌%◌, ◌^◌, ◌≡◌, refl, inl, inr, true, false, Option, none, some, List, [], ◌∷◌, arith,
  ◌==◌, if◌then◌else◌, Bool-cases, length, ok_code,
}
use embedded_system_software.Kernel.{kfree, kmalloc}
use embedded_system_software.RcuList.{Node, Driver, update, find, replace, simple_ioctl}

abbrev pub succ_data : Option ℕ → Option ℕ
succ_data none = none
succ_data (some d) = some ((d + 1) % 2 ^ 32)

find-replace :
    (arg id : ℕ) (ps : List Node)
    → find id (replace arg ps).0 ≡ (if arg == id then succ_data (find id ps) else find id ps)
unfolding find replace
find-replace arg id [] = ground arith
find-replace arg id (p ∷ ps) = ground (arith, find-replace arg id ps)

length-replace : (arg : ℕ) (ps : List Node) → length (replace arg ps).0 ≡ length ps
unfolding replace
length-replace arg [] = refl
length-replace arg (p ∷ ps) = ground (arith, length-replace arg ps)

found_none : (arg : ℕ) (ps : List Node) → (replace arg ps).1 ≡ false → (replace arg ps).0 ≡ ps
unfolding replace
found_none arg [] e = refl
found_none arg (p ∷ ps) e = ground (arith, found_none arg ps)

-- An update by a kernel with memory changes what a reader finds under its own id, to one more modulo 2 ^ 32 if there is
-- a node, and under no other id; it keeps the number of nodes, and frees as many nodes as it allocates.
pub simple_ioctl-update :
    (s : Driver) (arg : ℕ)
    → (t : Driver) × ((out : Option ℕ) × (simple_ioctl true s (update arg)
          ≡ some (ok_code, out, t)))
      × ((id : ℕ)
          → find id t.nodes ≡ (if arg == id then succ_data (find id s.nodes) else find id s.nodes))
      × (length t.nodes ≡ length s.nodes)
      × (t.heap.kmallocs + s.heap.kfrees ≡ s.heap.kmallocs + t.heap.kfrees)
unfolding simple_ioctl
simple_ioctl-update s arg =
    let others : (id : ℕ)
        → find id (replace arg s.nodes).0
          ≡ (if arg == id then succ_data (find id s.nodes) else find id s.nodes) =
      λ id. find-replace arg id s.nodes in
    elim (Bool-cases (replace arg s.nodes).1) [
      | inl found ↦ (
        record { nodes = (replace arg s.nodes).0; heap = kfree (kmalloc s.heap) },
        (find arg (replace arg s.nodes).0, rw found refl),
        others,
        length-replace arg s.nodes,
        omega arith,
      )
      | inr absent ↦
          (s, (none, rw absent refl), (rw (found_none arg s.nodes absent) at others), refl, refl)
    ]
