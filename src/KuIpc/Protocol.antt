-- ===== src/KuIpc/Protocol.antt =====
-- What two calls of the message queue driver do one after the other: a message comes back as it
-- was sent; and the exit handler frees all.
use mathlib.Core.List.{append-nil}
use embedded_system_software.Base.{
  total, get_elem?-none, ℕ, ◌+◌, ◌≤◌, ◌<◌, ◌≡◌, refl, true, false, not, ◌||◌, none, some, List, [],
  ◌∷◌, ◌++◌, arith, ==_iff, length, take, overlay, All, ℤ, pos, negsuc, ltb_ℤ, ok_code, at, put_at,
  at-put_at_self, put_at-put_at,
}
use embedded_system_software.Kernel.{Kernel, IsServing, Heap, kmalloc, vmalloc, kfree, vfree}
use embedded_system_software.KuIpc.{
  Msgbuf, Qid, Driver, MsgConfig, msgbuf_size, queue_num, ku_ipc_creat, msgclose, msgsnd, msgrcv,
  exit, type_of, free_queue, free_queues,
}
use embedded_system_software.KuIpc.Message.{message_of, message_of-IsMessage, take-message_of}
use embedded_system_software.KuIpc.Send.{is_full, msgsnd-sent}
use embedded_system_software.KuIpc.Receive.{is_accepted, IsOther, msgrcv-oldest}
use embedded_system_software.KuIpc.Invariant.{Inv, IsQueue}

abbrev pub create : ℤ → Qid
create key = record { key = key; msgflg = ku_ipc_creat }

-- `ku_ipc_msgclose` tests the key after it has read the counter, so its error code for a key out
-- of range is never given: every such call reads out of bounds.
msgclose_out_of_range :
    (s : Driver) (key : ℤ)
    → length s.counters ≡ queue_num
    → ltb_ℤ key (pos 0) || not (ltb_ℤ key (pos queue_num)) ≡ true
    → msgclose s key ≡ none
unfolding msgclose
msgclose_out_of_range s (pos i) ten out = rw (get_elem?-none s.counters i (ground arith))
msgclose_out_of_range s (negsuc i) ten out = refl

free_queue_lem :
    (q : List Msgbuf) (h : Heap)
    → free_queue q h ≡ record h { kfrees = h.kfrees + length q; vfrees = h.vfrees + length q }
unfolding free_queue
free_queue_lem [] h = ground arith
free_queue_lem (b ∷ q) h = ground (arith, free_queue_lem q (kfree (vfree h)))

free_queues_lem :
    (qs : List (List Msgbuf)) (h : Heap)
    → free_queues qs h ≡ record h { kfrees = h.kfrees + total qs; vfrees = h.vfrees + total qs }
unfolding free_queues
free_queues_lem [] h = ground arith
free_queues_lem (q ∷ qs) h = ground (arith, free_queue_lem q h, free_queues_lem qs (free_queue q h))

-- Unloading the module releases every message that a driver in good order holds, and nothing else.
pub exit_frees_all :
    (s : Driver)
    → Inv s
    → ((exit s).kfrees ≡ (exit s).kmallocs) × ((exit s).vfrees ≡ (exit s).vmallocs)
unfolding exit
exit_frees_all s v = ground (arith, free_queues_lem s.queues s.heap)

module _ (k : Kernel) (s : Driver) (m r : MsgConfig) {n : ℕ} {q : List Msgbuf}
    (serves : IsServing k) (found : at s.queues m.key ≡ some q) (ok : IsQueue q)
    (room : is_full q ≡ false) (size : m.msgsz ≡ pos n) (fits : n < msgbuf_size)
    (there : n ≤ length m.msg) (same_key : r.key ≡ m.key)
    (same_type : r.msgtyp ≡ type_of (message_of n m.msg)) (same_size : r.msgsz ≡ pos n)
    (target : n ≤ length r.msg) (fresh : All (IsOther r.msgtyp) q)
    (accepted : is_accepted r (message_of n m.msg) ≡ true) where
  abbrev msg : Msgbuf
  msg = message_of n m.msg

  abbrev sent : Driver
  sent = record s {
    queues = put_at s.queues m.key (q ++ (msg ∷ []));
    heap = kmalloc (vmalloc s.heap);
  }

  abbrev received : Driver
  received = record sent {
    queues = put_at sent.queues r.key (q ++ []);
    heap = vfree (kfree sent.heap);
  }

  found_sent : at sent.queues r.key ≡ some (q ++ (msg ∷ []))
  found_sent = rw same_key (at-put_at_self s.queues m.key (q ++ (msg ∷ [])) q found)

  -- A message shorter than the buffer that is sent to a queue with room, and with no message of its type, is what the next receiver of
  -- its type with as large a buffer gets, byte for byte, when the length test of the receiver accepts the message, and the queues and
  -- counters are then as before.
  pub send-receive :
      (s' s'' : Driver) × (msgsnd k s m ≡ some (ok_code, s'))
      × (msgrcv k s' r ≡ some (ok_code, overlay (take n m.msg) r.msg, s''))
      × (s''.queues ≡ s.queues)
      × (s''.counters ≡ s.counters)
  send-receive = (
    sent,
    received,
    rw (msgsnd-sent k s m found ok.whole ok.few serves size (omega arith) there, room),
    rw (
      msgrcv-oldest k sent r q msg [] found_sent fresh (message_of-IsMessage n m.msg fits)
          ((==_iff _ _).1 same_type) serves same_size (omega arith) target,
      accepted,
      take-message_of n m.msg (omega arith) there,
    ),
    rw (append-nil, same_key) (put_at-put_at s.queues m.key (q ++ (msg ∷ [])) q found),
    refl,
  )
