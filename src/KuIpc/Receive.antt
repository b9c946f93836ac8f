-- ===== src/KuIpc/Receive.antt =====
-- `ku_ipc_msgrcv`: it looks for the oldest message of a type, and takes it out or leaves it.
use embedded_system_software.Base.{
  ℕ, ◌+◌, ◌≤◌, ◌≡◌, refl, Bool, true, false, ◌||◌, some, List, [], ◌∷◌, ◌++◌, arith, leb, ◌==◌,
  if◌then◌else◌, length, take, overlay, All, pos, ok_code, minus_one, minus_two, at, put_at,
  has_flag,
}
use embedded_system_software.Kernel.{Kernel, IsServing, kfree, vfree}
use embedded_system_software.KuIpc.{
  Msgbuf, Driver, MsgConfig, absent, too_long, taken, type_of, text_of, msgbuf_size, ku_msg_noerror,
  size_t, look_for, msgrcv,
}
use embedded_system_software.KuIpc.Volume.{IsMessage, text_length, volume_of_lem}

abbrev pub IsOther : ℕ → Msgbuf → Type 0
IsOther t b = (t == type_of b) ≡ false

-- The caller takes the message: it takes any part of it, or it has room for all of it.
abbrev pub is_accepted : MsgConfig → Msgbuf → Bool
is_accepted m b =
    has_flag m.msgflg ku_msg_noerror || leb (9 + text_length (text_of b)) (size_t m.msgsz)

pub look_for-absent :
    (m : MsgConfig) (q : List Msgbuf) → All (IsOther m.msgtyp) q → look_for m q ≡ some absent
unfolding look_for
look_for-absent m [] h = refl
look_for-absent m (b ∷ q) h = rw h.0 (rw (look_for-absent m q h.1))

pub look_for-oldest :
    (m : MsgConfig) (before : List Msgbuf) (b : Msgbuf) (after : List Msgbuf)
    → All (IsOther m.msgtyp) before
    → IsMessage b
    → (m.msgtyp == type_of b) ≡ true
    → look_for m (before ++ (b ∷ after))
      ≡ some (if is_accepted m b then taken b (before ++ after) else too_long)
unfolding look_for
look_for-oldest m [] b after h v e = rw e (ground (arith, volume_of_lem b v))
look_for-oldest m (c ∷ before) b after h v e =
    rw h.0 (rw (look_for-oldest m before b after h.1 v e) (ground arith))

module _ (k : Kernel) (s : Driver) (m : MsgConfig) where
  -- With no message of the asked type the answer is -1, and nothing changes.
  pub msgrcv-absent :
      {q : List Msgbuf}
      → at s.queues m.key ≡ some q
      → All (IsOther m.msgtyp) q
      → msgrcv k s m ≡ some (minus_one, m.msg, s)
  unfolding msgrcv
  msgrcv-absent {q} found others = rw (found, look_for-absent m q others)

  module _ (before : List Msgbuf) (b : Msgbuf) (after : List Msgbuf) {n : ℕ}
      (found : at s.queues m.key ≡ some (before ++ (b ∷ after)))
      (others : All (IsOther m.msgtyp) before) (whole : IsMessage b)
      (same : (m.msgtyp == type_of b) ≡ true) (serving : IsServing k) (size : m.msgsz ≡ pos n)
      (fits : n ≤ msgbuf_size) (there : n ≤ length m.msg) where
    -- Of the messages of the asked type the oldest is taken, however many of other types stand before it: if the caller
    -- takes a part, or has room for all of it, its first `n` bytes reach the caller's memory and the others keep their
    -- order; otherwise the answer is -2 and nothing changes. The kernel copies, and the target has `n` bytes, at most 136.
    pub msgrcv-oldest : msgrcv k s m ≡ (
        if is_accepted m b
        then some (
          ok_code,
          overlay (take n b) m.msg,
          record s {
            queues = put_at s.queues m.key (before ++ after);
            heap = vfree (kfree s.heap);
          },
        )
        else some (minus_two, m.msg, s))
    unfolding msgrcv
    msgrcv-oldest =
        rw (found, look_for-oldest m before b after others whole same)
          (ground (arith, serving.to_all m.msg n there))
