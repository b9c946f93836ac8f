-- ===== src/Switch/Invariant.antt =====
-- What holds of the driver of switch.c between two events, and that every event keeps it.
use embedded_system_software.Base.{
  ℕ, zero, suc, ◌+◌, ◌≡◌, refl, ap, ◌≢◌, ◌⊎◌, inl, inr, some, List, [], ◌∷◌, arith, length,
  get_elem?, set, total, length-append,
}
use embedded_system_software.Kernel.{Heap, kfree}
use embedded_system_software.Switch.{Driver, Sample, queue_num, free_nodes, broadcast, users}
use embedded_system_software.Switch.Setup.{initial}

-- A queue that is not in use holds nothing.
abbrev pub IsOwned : List ℕ → List (List Sample) → Type 0
IsOwned [] qs = Unit {0}
IsOwned (u ∷ us) [] = Unit {0}
IsOwned (u ∷ us) (q ∷ qs) = ((u ≢ 0) ⊎ (q ≡ [])) × IsOwned us qs

pub record Inv (s : Driver) : Type 0 where
  pub switch_length : length s.switch_queues ≡ queue_num
  pub ultrasonic_length : length s.ultrasonic_queues ≡ queue_num
  pub use_length : length s.queue_use ≡ queue_num
  pub switch_owned : IsOwned s.queue_use s.switch_queues
  pub ultrasonic_owned : IsOwned s.queue_use s.ultrasonic_queues
  pub flag_range : (s.echo_valid_flag ≡ 1) ⊎ (s.echo_valid_flag ≡ 2) ⊎ (s.echo_valid_flag ≡ 3)
  pub nodes : s.heap.kmallocs ≡ s.heap.kfrees + total s.switch_queues + total s.ultrasonic_queues

pub length-broadcast :
    (d : Sample) (us : List ℕ) (qs : List (List Sample)) → length (broadcast d us qs) ≡ length qs
unfolding broadcast
length-broadcast d [] qs = refl
length-broadcast d (u ∷ us) [] = refl
length-broadcast d (u ∷ us) (q ∷ qs) = ap suc (length-broadcast d us qs)

pub total-broadcast :
    (d : Sample) (us : List ℕ) (qs : List (List Sample))
    → length us ≡ length qs
    → total (broadcast d us qs) ≡ total qs + users us
unfolding broadcast users
total-broadcast d [] [] h = refl
total-broadcast d [] (q ∷ qs) h = absurd (omega arith)
total-broadcast d (u ∷ us) [] h = absurd (omega arith)
total-broadcast d (u ∷ us) (q ∷ qs) h =
    ground (arith, total-broadcast d us qs (omega arith), length-append q (d ∷ []))

pub broadcast-IsOwned :
    (d : Sample) (us : List ℕ) (qs : List (List Sample))
    → IsOwned us qs
    → IsOwned us (broadcast d us qs)
unfolding broadcast
broadcast-IsOwned d [] qs h = tt
broadcast-IsOwned d (u ∷ us) [] h = tt
broadcast-IsOwned d (u ∷ us) (q ∷ qs) h = (ground arith, broadcast-IsOwned d us qs h.1)

IsOwned-nil : (us : List ℕ) → IsOwned us []
IsOwned-nil [] = tt
IsOwned-nil (u ∷ us) = tt

-- A queue that is taken, or that is emptied as it is given back.
pub use_set-IsOwned :
    (us : List ℕ) (qs : List (List Sample)) (i : ℕ) → IsOwned us qs → IsOwned (set us i 1) qs
use_set-IsOwned [] qs i h = tt
use_set-IsOwned (u ∷ us) [] i h = IsOwned-nil (set (u ∷ us) i 1)
use_set-IsOwned (u ∷ us) (q ∷ qs) zero h = (inl (omega arith), h.1)
use_set-IsOwned (u ∷ us) (q ∷ qs) (suc i) h = (h.0, use_set-IsOwned us qs i h.1)

pub clear-IsOwned :
    (us : List ℕ) (qs : List (List Sample)) (i u : ℕ)
    → IsOwned us qs
    → IsOwned (set us i u) (set qs i [])
clear-IsOwned [] qs i u h = tt
clear-IsOwned (v ∷ us) [] i u h = IsOwned-nil (set (v ∷ us) i u)
clear-IsOwned (v ∷ us) (q ∷ qs) zero u h = (inr refl, h.1)
clear-IsOwned (v ∷ us) (q ∷ qs) (suc i) u h = (h.0, clear-IsOwned us qs i u h.1)

pub tail-IsOwned :
    (us : List ℕ) (qs : List (List Sample)) (i : ℕ) (d : Sample) (q : List Sample)
    → get_elem? qs i ≡ some (d ∷ q)
    → IsOwned us qs
    → IsOwned us (set qs i q)
tail-IsOwned [] qs i d q e h = tt
tail-IsOwned (v ∷ us) [] i d q e h = tt
tail-IsOwned (v ∷ us) (p ∷ qs) zero d q e h = (ground arith, h.1)
tail-IsOwned (v ∷ us) (p ∷ qs) (suc i) d q e h = (h.0, tail-IsOwned us qs i d q e h.1)

pub free_nodes_lem :
    (q : List Sample) (h : Heap) → free_nodes q h ≡ record h { kfrees = h.kfrees + length q }
unfolding free_nodes
free_nodes_lem [] h = ground arith
free_nodes_lem (d ∷ q) h = ground (arith, free_nodes_lem q (kfree h))

pub initial-Inv : Inv initial
unfolding initial
initial-Inv = ground arith
