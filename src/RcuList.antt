-- ===== src/RcuList.antt =====
-- synchronization/exercise3/simple_rculist.c: a list of numbers under RCU. An update puts a changed copy in the place of
-- a node and frees the node after the readers that may hold it are done, so a read sees one list, and is a step.
pub mod Update
mod Tests
use mathlib.Core.Option
use embedded_system_software.Base.{
  ℕ, zero, suc, ◌+◌, ◌-◌, ◌*◌, ◌/◌, ◌%◌, ◌^◌, ◌≤◌, ◌<◌, bit_and, bit_or, ◌≡◌, refl, sym, ap, subst,
  ◌∙◌, ◌≢◌, ◌↔◌, ◌⊎◌, inl, inr, Bool, true, false, not, ◌&&◌, ◌||◌, Option, none, some, List, [],
  ◌∷◌, ◌++◌, map, arith, ltb, leb, ◌==◌, if◌then◌else◌, ltb→lt, lt→ltb, le→ltb_false, ==_iff,
  ==_refl, Bool-cases, Option-cases, ◌>>=◌, length, get_elem?, get_or, set, total-set, take, drop,
  replicate, overlay, All, total, total-put_at, length-append, length-set, get_elem?-set_self,
  get_elem?-set_ne, get_elem?-lt, get_elem?-none, set-set, lt_of_get_elem?, length-overlay,
  length-take, length-drop, length-replicate, take-overlay, All-append, All-get_elem?, All-set, ℤ,
  pos, negsuc, ltb_ℤ, eqb_ℤ, is_negative, ok_code, minus_one, minus_two, as_int, as_int-small, at,
  put_at, length-put_at, at-put_at_self, at-put_at_ne, put_at-put_at, All-put_at, All-at, has_flag,
  strlen,
}
use embedded_system_software.Kernel.{Heap, no_calls, kmalloc, kfree}

-- `struct test_list`; `unsigned long` has 32 bits.
pub record Node : Type 0 where
  pub id : ℕ
  pub data_value : ℕ

pub record Driver : Type 0 where
  pub nodes : List Node
  pub heap : Heap

-- The loop of the read: the data of the first node with the id, which is printed.
unfoldable pub find : ℕ → List Node → Option ℕ
find arg [] = none
find arg (p ∷ ps) = if p.id == arg then some p.data_value else find arg ps

abbrev pub bumped : Node → Node
bumped p = record p { data_value = (p.data_value + 1) % 2 ^ 32 }

-- The loop of the update, up to the first node with the id: the list and whether there was one.
unfoldable pub replace : ℕ → List Node → List Node × Bool
replace arg [] = ([], false)
replace arg (p ∷ ps) =
    let rest = replace arg ps in if p.id == arg then (bumped p ∷ ps, true) else (p ∷ rest.0, rest.1)

pub data Request : Type 0 where
  read update : ℕ → Request
  unknown : Request

-- The result and what is printed as the data, and the state. `kmalloc_ok` tells whether `kmalloc` succeeds; `memcpy`
-- writes through the pointer unchecked, and `none` is that fault.
unfoldable pub simple_ioctl : Bool → Driver → Request → Option (ℤ × Option ℕ × Driver)
simple_ioctl kmalloc_ok s (read arg) = some (ok_code, find arg s.nodes, s)
simple_ioctl kmalloc_ok s (update arg) =
    let (ps, found) = replace arg s.nodes in
    if found
    then (if kmalloc_ok
        then some (ok_code, find arg ps, record { nodes = ps; heap = kfree (kmalloc s.heap) })
        else none)
    else some (ok_code, none, s)
simple_ioctl kmalloc_ok s unknown = some (minus_one, none, s)

-- The loop of `simple_rculist_init` from `i` on.
unfoldable pub fill : ℕ → ℕ → Driver → Driver
fill i zero s = s
fill i (suc n) s = fill (i + 1) n (record {
  nodes = s.nodes ++ (record { id = i + 1; data_value = 100 } ∷ []);
  heap = kmalloc s.heap;
})

unfoldable pub simple_rculist_init : Driver
simple_rculist_init = fill 0 5 (record { nodes = []; heap = no_calls })

unfoldable pub free_nodes : List Node → Heap → Heap
free_nodes [] h = h
free_nodes (p ∷ ps) h = free_nodes ps (kfree h)

unfoldable pub simple_rculist_exit : Driver → Heap
simple_rculist_exit s = free_nodes s.nodes s.heap
