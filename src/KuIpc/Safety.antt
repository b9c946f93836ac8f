-- ===== src/KuIpc/Safety.antt =====
-- No sequence of calls of well-behaved clients makes the message queue driver fault.
use embedded_system_software.Base.{
  ℕ, suc, ◌-◌, ◌≤◌, ◌<◌, ◌≡◌, refl, inl, inr, false, Option, none, some, List, [], ◌∷◌, ◌++◌, arith,
  le→ltb_false, Bool-cases, ◌>>=◌, length, All, length-append, All-append, ℤ, pos, as_int, at,
  All-at,
}
use embedded_system_software.Kernel.{Kernel, IsServing, kmalloc, vmalloc, kfree, vfree}
use embedded_system_software.KuIpc.{
  Msgbuf, Qid, Driver, MsgConfig, Request, get, close, send, receive, unknown, Found, absent,
  too_long, taken, msgbuf_size, queue_num, kuipc_maxmsg, look_for, deliver, msgget, msgclose,
  msgrcv, ioctl, init, succ_int,
}
use embedded_system_software.KuIpc.Volume.{IsMessage, volume_of_lem}
use embedded_system_software.KuIpc.Message.{message_of, message_of-IsMessage}
use embedded_system_software.KuIpc.Send.{is_full, msgsnd-sent}
use embedded_system_software.KuIpc.Invariant.{
  IsQueue, Inv, IsBounded, Keeps, at_index, put-Inv, counter-Inv, init-Inv,
}

-- What a well-behaved client passes. A message leaves the last byte of the buffer for a terminator.
abbrev pub IsWellFormed : Request → Type 0
IsWellFormed (get q) = (i : ℕ) × (q.key ≡ pos i) × (i < queue_num)
IsWellFormed (close arg) = arg < queue_num
IsWellFormed (receive m) = IsBounded msgbuf_size m
IsWellFormed (send m) = IsBounded (msgbuf_size - 1) m
IsWellFormed unknown = Unit {0}

msgget-Inv :
    (k : Kernel) (s : Driver) (q : Qid) (c : ℕ)
    → Inv s
    → at s.counters q.key ≡ some c
    → Keeps (ioctl k s (get q))
unfolding ioctl msgget
msgget-Inv k s q c v e = ground (arith, counter-Inv s q.key (succ_int c) v)

append-IsQueue :
    (q : List Msgbuf) (b : Msgbuf)
    → IsQueue q
    → is_full q ≡ false
    → IsMessage b
    → IsQueue (q ++ (b ∷ []))
append-IsQueue q b ok room whole = record {
  few = ground (arith, length-append q (b ∷ []));
  whole = All-append IsMessage q (b ∷ []) ok.whole (whole, tt);
}

msgsnd-Inv :
    (k : Kernel) (s : Driver) (m : MsgConfig)
    → IsServing k
    → Inv s
    → IsBounded (msgbuf_size - 1) m
    → Keeps (ioctl k s (send m))
unfolding ioctl
msgsnd-Inv k s m serves v b =
    let (q, e) =
      at_index s.queues m.key b.index b.key_is (omega (arith, v.ten_queues, b.in_range)) in
    let ok = All-at IsQueue s.queues m.key q v.sound e in
    let msg = message_of b.size m.msg in
    rw (msgsnd-sent k s m e ok.whole ok.few serves b.size_is (omega (arith, b.fits)) b.mapped)
      (elim (Bool-cases (is_full q)) [
        | inl full ↦ rw full v
        | inr room ↦ rw room (
            put-Inv s m.key (kmalloc (vmalloc s.heap)) q (q ++ (msg ∷ [])) v e
              (append-IsQueue q msg ok room
                (message_of-IsMessage b.size m.msg (omega (arith, b.fits))))
              (omega (arith, length-append q (msg ∷ [])))
              (omega (arith, length-append q (msg ∷ []))))
      ])

-- What the search finds in a queue of whole messages: a message that it takes leaves the others.
abbrev IsSplit : List Msgbuf → Option Found → Type 0
IsSplit q none = ⊥
IsSplit q (some (taken b rest)) = (length q ≡ suc (length rest)) × All IsMessage rest
IsSplit q (some absent) = Unit {0}
IsSplit q (some too_long) = Unit {0}

look_for-IsSplit : (m : MsgConfig) (q : List Msgbuf) → All IsMessage q → IsSplit q (look_for m q)
unfolding look_for
look_for-IsSplit m [] h = tt
look_for-IsSplit m (b ∷ q) h = ground (arith, volume_of_lem b h.0, look_for-IsSplit m q h.1)

deliver-Inv :
    (k : Kernel) (s : Driver) (m : MsgConfig) (q : List Msgbuf) (found : Option Found)
    → IsServing k
    → Inv s
    → IsBounded msgbuf_size m
    → at s.queues m.key ≡ some q
    → length q ≤ kuipc_maxmsg
    → IsSplit q found
    → Keeps (found >>= deliver k s m)
unfolding deliver
deliver-Inv k s m q none serves v b e few split = split
deliver-Inv k s m q (some absent) serves v b e few split = v
deliver-Inv k s m q (some too_long) serves v b e few split = v
deliver-Inv k s m q (some (taken c rest)) serves v b e few split =
    let w =
      put-Inv s m.key (vfree (kfree s.heap)) q rest v e
        (record { few = omega arith; whole = split.1 }) (omega arith) (omega arith) in
    rw b.size_is
      (rw (le→ltb_false msgbuf_size (b.size - k.to_user m.msg b.size) (omega (arith, b.fits))) w)

msgrcv-Inv :
    (k : Kernel) (s : Driver) (m : MsgConfig)
    → IsServing k
    → Inv s
    → IsBounded msgbuf_size m
    → Keeps (ioctl k s (receive m))
unfolding ioctl msgrcv
msgrcv-Inv k s m serves v b =
    let (q, e) =
      at_index s.queues m.key b.index b.key_is (omega (arith, v.ten_queues, b.in_range)) in
    let ok = All-at IsQueue s.queues m.key q v.sound e in
    rw e (deliver-Inv k s m q (look_for m q) serves v b e ok.few (look_for-IsSplit m q ok.whole))

-- A well-formed call does not fault, and keeps the invariant.
pub ioctl-Inv :
    (k : Kernel) (s : Driver) (r : Request)
    → IsServing k
    → Inv s
    → IsWellFormed r
    → Keeps (ioctl k s r)
unfolding ioctl msgclose
ioctl-Inv k s (get q) serves v ok =
    let (c, e) = at_index s.counters q.key ok.0 ok.1 (omega (arith, v.ten_counters)) in
    msgget-Inv k s q c v e
ioctl-Inv k s (close arg) serves v ok =
    let (c, e) =
      at_index s.counters (as_int arg) arg (ground arith) (omega (arith, v.ten_counters)) in
    ground (arith, counter-Inv s (as_int arg) (c - 1) v)
ioctl-Inv k s (receive m) serves v ok = msgrcv-Inv k s m serves v ok
ioctl-Inv k s (send m) serves v ok = msgsnd-Inv k s m serves v ok
ioctl-Inv k s unknown serves v ok = v

-- The calls of all clients in the order in which the lock admits them, each with what the kernel
-- answered; `none` once a call has faulted.
unfoldable pub run : List (Kernel × Request) → Driver → Option Driver
run [] s = some s
run ((k, r) ∷ calls) s = do after ← ioctl k s r; run calls after.2

abbrev pub AllWellFormed : List (Kernel × Request) → Type 0
AllWellFormed [] = Unit {0}
AllWellFormed ((k, r) ∷ calls) = IsServing k × IsWellFormed r × AllWellFormed calls

resume :
    (calls : List (Kernel × Request)) (o : Option (ℤ × List ℕ × Driver))
    → Keeps o
    → ((s : Driver) → Inv s → (t : Driver) × (run calls s ≡ some t) × Inv t)
    → (t : Driver) × ((o >>= λ after. run calls after.2) ≡ some t) × Inv t
resume calls none kept rest = absurd kept
resume calls (some (code, mem, s)) kept rest = rest s kept

run-Inv :
    (calls : List (Kernel × Request)) (s : Driver)
    → Inv s
    → AllWellFormed calls
    → (t : Driver) × (run calls s ≡ some t) × Inv t
unfolding run
run-Inv [] s v ok = (s, refl, v)
run-Inv ((k, r) ∷ calls) s v ok =
    resume calls (ioctl k s r) (ioctl-Inv k s r ok.0 v ok.1) λ t w. run-Inv calls t w ok.2

-- From the loaded module on, no sequence of well-formed calls faults, and the state that it leads to satisfies the invariant: keys are in
-- range, a send is of at most 135 bytes, one less than the buffer, a receive of at most 136, and the kernel serves.
pub run-init-Inv :
    (added : ℤ) (calls : List (Kernel × Request))
    → AllWellFormed calls
    → (t : Driver) × (run calls (init added).1 ≡ some t) × Inv t
run-init-Inv added calls = run-Inv calls (init added).1 (init-Inv added)
