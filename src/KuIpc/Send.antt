-- ===== src/KuIpc/Send.antt =====
-- `ku_ipc_msgsnd` on a queue of whole messages: when it refuses, and what it appends.
use embedded_system_software.Base.{
  ℕ, ◌+◌, ◌≤◌, ◌≡◌, Bool, ◌||◌, some, List, [], ◌∷◌, ◌++◌, arith, ltb, leb, if◌then◌else◌, length,
  All, pos, ok_code, minus_one, at, put_at,
}
use embedded_system_software.KuIpc.Message.{message_of}
use embedded_system_software.Kernel.{Kernel, IsServing, kmalloc, vmalloc}
use embedded_system_software.KuIpc.{
  Msgbuf, Driver, MsgConfig, msgbuf_size, msgsnd, enqueue, kuipc_maxmsg, kuipc_maxvol,
}
use embedded_system_software.KuIpc.Volume.{IsMessage, volume, volume-bound, tally_lem}

-- The test of `ku_ipc_msgsnd`: the size of the new message is no part of it.
abbrev pub is_full : List Msgbuf → Bool
is_full q = ltb kuipc_maxvol (volume q + 4) || leb kuipc_maxmsg (length q)

module _ (k : Kernel) (s : Driver) (m : MsgConfig) {q : List Msgbuf}
    (found : at s.queues m.key ≡ some q) (whole : All IsMessage q)
    (few : length q ≤ kuipc_maxmsg) where
  pub msgsnd_split : msgsnd k s m ≡ (if is_full q then some (minus_one, s) else enqueue k s m q)
  unfolding msgsnd
  msgsnd_split =
      rw (found, tally_lem q 0 0 whole (omega arith) (omega (arith, volume-bound q whole)))
        (ground (arith, volume-bound q whole))

  enqueue-serving :
      {n : ℕ}
      → IsServing k
      → m.msgsz ≡ pos n
      → n ≤ msgbuf_size
      → n ≤ length m.msg
      → enqueue k s m q
        ≡ some (
          ok_code,
          record s {
            queues = put_at s.queues m.key (q ++ (message_of n m.msg ∷ []));
            heap = kmalloc (vmalloc s.heap);
          },
        )
  unfolding enqueue
  enqueue-serving {n} serving size fits there = ground (arith, serving.from_all m.msg n there)

  -- A send to a queue of at most five well-terminated messages, by a kernel that copies and has memory, of at most
  -- 136 mapped bytes: it is refused exactly when there are five messages, or when those in the queue have a volume of
  -- more than 96, whatever the size of the new one; otherwise the message goes to the end of its queue, and nothing else
  -- changes but one call of each allocator.
  pub msgsnd-sent :
      {n : ℕ}
      → IsServing k
      → m.msgsz ≡ pos n
      → n ≤ msgbuf_size
      → n ≤ length m.msg
      → msgsnd k s m ≡ (
          if is_full q
          then some (minus_one, s)
          else some (
            ok_code,
            record s {
              queues = put_at s.queues m.key (q ++ (message_of n m.msg ∷ []));
              heap = kmalloc (vmalloc s.heap);
            },
          ))
  msgsnd-sent serving size fits there = rw (msgsnd_split, enqueue-serving serving size fits there)
