-- ===== src/SimpleList.antt =====
-- basic_kernel_functions/exercise1/simple_linked_list.c: a list that is filled when the module is loaded and freed when it is removed.
mod Tests
use embedded_system_software.Base.{
  ℕ, zero, suc, ◌+◌, ◌-◌, ◌*◌, ◌/◌, ◌%◌, ◌^◌, ◌≤◌, ◌<◌, bit_and, bit_or, ◌≡◌, refl, sym, ap, subst,
  ◌∙◌, ◌≢◌, ◌↔◌, ◌⊎◌, inl, inr, Bool, true, false, not, ◌&&◌, ◌||◌, Option, none, some, List, [],
  ◌∷◌, ◌++◌, map, arith, ltb, leb, ◌==◌, if◌then◌else◌, ltb→lt, lt→ltb, le→ltb_false, ==_iff,
  ==_refl, Bool-cases, Option-cases, ◌>>=◌, length, get_elem?, get_or, set, total-set, take, drop,
  replicate, overlay, All, total, total-put_at, length-append, length-set, get_elem?-set_self,
  get_elem?-set_ne, get_elem?-lt, get_elem?-none, set-set, lt_of_get_elem?, length-overlay,
  length-take, length-drop, length-replicate, take-overlay, take_all, append-nil, overlay-append,
  append_assoc, All-append, All-get_elem?, All-set, ℤ, pos, negsuc, ltb_ℤ, eqb_ℤ, is_negative,
  ok_code, minus_one, minus_two, as_int, as_int-small, at, put_at, length-put_at, at-put_at_self,
  at-put_at_ne, put_at-put_at, All-put_at, All-at, has_flag, strlen, update, update_self, update_ne,
  IsSome, IsSome-value, update-none, some-ne-none,
}
use mathlib.Core.Option.{some-injective}
use embedded_system_software.Kernel.{Heap, no_calls, kmalloc, kfree}

-- The list as the ids of its nodes, from its head on, and the calls of the allocator.
pub record MyList : Type 0 where
  pub ids : List ℕ
  pub heap : Heap

-- The loop of the loading from `i` on: each node goes to the head. `granted` is what the allocations that follow give; without
-- memory the id is stored through NULL.
unfoldable pub enter : ℕ → ℕ → List Bool → MyList → Option MyList
enter zero i granted s = some s
enter (suc n) i [] s = none
enter (suc n) i (ok ∷ granted) s =
    let rest = enter n (i + 1) granted (record { ids = i ∷ s.ids; heap = kmalloc s.heap }) in
    if ok then rest else none

-- What a walk along the list prints: positions and ids.
unfoldable pub walk : ℕ → List ℕ → List (ℕ × ℕ)
walk i [] = []
walk i (x ∷ xs) = (i, x) ∷ walk (i + 1) xs

-- The lines of both walks, and the list.
unfoldable pub simple_linked_list_init : List Bool → Option (List (ℕ × ℕ) × MyList)
simple_linked_list_init granted = do
  s ← enter 5 0 granted (record { ids = []; heap = no_calls })
  some (walk 0 s.ids ++ walk 0 s.ids, s)

-- The loop of the removal; `list_for_each_safe` has the next node before a node is freed.
unfoldable pub free_all : List ℕ → Heap → Heap
free_all [] h = h
free_all (x ∷ xs) h = free_all xs (kfree h)

-- What the removal prints, and the calls of the allocator.
unfoldable pub simple_linked_list_exit : MyList → List (ℕ × ℕ) × Heap
simple_linked_list_exit s = (walk 0 s.ids, free_all s.ids s.heap)

-- Every node that is allocated is in the list or freed.
abbrev IsBalanced : MyList → Type 0
IsBalanced s = s.heap.kmallocs ≡ s.heap.kfrees + length s.ids

enter-IsBalanced :
    (n i : ℕ) (granted : List Bool) (s t : MyList)
    → IsBalanced s
    → enter n i granted s ≡ some t
    → IsBalanced t
unfolding enter
enter-IsBalanced zero i granted s t v h = subst IsBalanced (some-injective s t h) v
enter-IsBalanced (suc n) i [] s t v h = cc
enter-IsBalanced (suc n) i (true ∷ granted) s t v h =
    enter-IsBalanced n (i + 1) granted (record { ids = i ∷ s.ids; heap = kmalloc s.heap }) t
      (omega (arith, v)) h
enter-IsBalanced (suc n) i (false ∷ granted) s t v h = cc

free_all_lem : (xs : List ℕ) (h : Heap) → free_all xs h ≡ record h { kfrees = h.kfrees + length xs }
unfolding free_all
free_all_lem [] h = ground arith
free_all_lem (x ∷ xs) h = ground (arith, free_all_lem xs (kfree h))

-- Whatever memory is there, when the module is loaded its removal frees every node, once.
exit-init :
    (granted : List Bool) (s : MyList)
    → enter 5 0 granted (record { ids = []; heap = no_calls }) ≡ some s
    → (simple_linked_list_exit s).1.kmallocs ≡ (simple_linked_list_exit s).1.kfrees
unfolding simple_linked_list_exit
exit-init granted s h =
    let v = enter-IsBalanced 5 0 granted (record { ids = []; heap = no_calls }) s refl h in
    rw (free_all_lem s.ids s.heap) v
