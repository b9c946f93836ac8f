-- ===== src/KuIpc/Invariant.antt =====
-- What holds of the message queue driver between two calls, and that no call of a well-behaved
-- client breaks it or faults.
use embedded_system_software.Base.{
  total, total-put_at, ℕ, ◌+◌, ◌≤◌, ◌<◌, ◌≡◌, refl, ◌∙◌, Option, none, some, List, arith, length,
  All, get_elem?-lt, ℤ, pos, at, put_at, length-put_at, All-put_at,
}
use embedded_system_software.Kernel.{Heap}
use embedded_system_software.KuIpc.{Msgbuf, Driver, MsgConfig, queue_num, kuipc_maxmsg, init}
use embedded_system_software.KuIpc.Volume.{IsMessage}

pub record IsQueue (q : List Msgbuf) : Type 0 where
  pub few : length q ≤ kuipc_maxmsg
  pub whole : All IsMessage q

pub record Inv (s : Driver) : Type 0 where
  pub ten_queues : length s.queues ≡ queue_num
  pub ten_counters : length s.counters ≡ queue_num
  pub sound : All IsQueue s.queues
  pub nodes : s.heap.kmallocs ≡ s.heap.kfrees + total s.queues
  pub buffers : s.heap.vmallocs ≡ s.heap.vfrees + total s.queues

pub init-Inv : (added : ℤ) → Inv (init added).1
unfolding init
init-Inv added = record {
  ten_queues = refl;
  ten_counters = refl;
  sound = ground arith;
  nodes = refl;
  buffers = refl;
}

pub put-Inv :
    (s : Driver) (key : ℤ) (h : Heap) (q q' : List Msgbuf)
    → Inv s
    → at s.queues key ≡ some q
    → IsQueue q'
    → h.kmallocs + s.heap.kfrees + length q ≡ h.kfrees + s.heap.kmallocs + length q'
    → h.vmallocs + s.heap.vfrees + length q ≡ h.vfrees + s.heap.vmallocs + length q'
    → Inv (record s { queues = put_at s.queues key q'; heap = h })
put-Inv s key h q q' v e ok n b = record {
  ten_queues = length-put_at s.queues key q' ∙ v.ten_queues;
  ten_counters = v.ten_counters;
  sound = All-put_at IsQueue s.queues key q' ok v.sound;
  nodes = omega (arith, total-put_at s.queues key q q' e, v.nodes);
  buffers = omega (arith, total-put_at s.queues key q q' e, v.buffers);
}

pub counter-Inv :
    (s : Driver) (key : ℤ) (c : ℕ) → Inv s → Inv (record s { counters = put_at s.counters key c })
counter-Inv s key c v = record {
  ten_queues = v.ten_queues;
  ten_counters = length-put_at s.counters key c ∙ v.ten_counters;
  sound = v.sound;
  nodes = v.nodes;
  buffers = v.buffers;
}

-- A key in range, and a size that fits the buffers on both sides.
pub record IsBounded (limit : ℕ) (m : MsgConfig) : Type 0 where
  pub index : ℕ
  pub size : ℕ
  pub key_is : m.key ≡ pos index
  pub size_is : m.msgsz ≡ pos size
  pub in_range : index < queue_num
  pub fits : size ≤ limit
  pub mapped : size ≤ length m.msg

pub at_index {ℓ} :
    {A : Type ℓ} (xs : List A) (key : ℤ) (i : ℕ)
    → key ≡ pos i
    → i < length xs
    → (x : A) × (at xs key ≡ some x)
at_index xs key i e h = let (x, p) = get_elem?-lt xs i h in (x, rw e p)

-- What a call of the driver gives: no fault, and a state in which the invariant holds.
abbrev pub Keeps : Option (ℤ × List ℕ × Driver) → Type 0
Keeps none = ⊥
Keeps (some (code, mem, s)) = Inv s
