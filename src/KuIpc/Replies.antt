-- ===== src/KuIpc/Replies.antt =====
-- Drivers whose queues have the same contents answer alike: the order between messages of different types is nothing that a
-- program can learn.
use embedded_system_software.Base.{
  ℕ, ◌+◌, ◌-◌, ◌%◌, ◌^◌, bit_or, ◌≡◌, refl, ap, ◌∙◌, inl, inr, not, ◌&&◌, ◌||◌, Option, none, some,
  List, [], ◌∷◌, ◌++◌, ltb, ◌==◌, if◌then◌else◌, Bool-cases, Option-cases, ◌>>=◌, take, overlay, ℤ,
  pos, ltb_ℤ, is_negative, ok_code, minus_one, as_int, at, put_at,
}
use mathlib.Core.Option
use mathlib.Core.Option.{some-injective}
use embedded_system_software.Kernel.{Kernel, kmalloc, vmalloc, kfree, vfree}
use embedded_system_software.KuIpc.{
  moved_out, msgbuf_size, Msgbuf, MsgConfig, Driver, Request, get, close, send, receive, unknown,
  tally, Found, absent, too_long, taken, look_for, deliver, enqueue, msgget, msgclose, msgsnd,
  msgrcv, ioctl, copied_in, queue_num, Qid, succ_int, ku_ipc_creat, ku_ipc_excl, count_up,
  no_memory, size_t, gt_int, ge_int, kuipc_maxvol, kuipc_maxmsg,
}
use embedded_system_software.KuIpc.Mailboxes.{SameBoxes}
use embedded_system_software.KuIpc.Order.{SameBoxes-tally}
use embedded_system_software.KuIpc.Alike.{
  Alike, BothSame, FoundSame, at-BothSame, put_at-AllSame, SameBoxes-append, look_for-FoundSame,
}

-- The same code and the same memory, and drivers that are alike.
abbrev pub SameReply : Option (ℤ × List ℕ × Driver) → Option (ℤ × List ℕ × Driver) → Type 0
SameReply none none = Unit {0}
SameReply none (some r) = ⊥
SameReply (some l) none = ⊥
SameReply (some l) (some r) = (l.0 ≡ r.0) × (l.1 ≡ r.1) × Alike l.2 r.2

deliver-SameReply :
    (k : Kernel) (s t : Driver) (m : MsgConfig) (x y : Option Found)
    → Alike s t
    → FoundSame x y
    → SameReply (x >>= deliver k s m) (y >>= deliver k t m)
unfolding deliver
deliver-SameReply k s t m none none h same = tt
deliver-SameReply k s t m (some absent) (some absent) h same = (refl, refl, h)
deliver-SameReply k s t m (some too_long) (some too_long) h same = (refl, refl, h)
deliver-SameReply k s t m (some (taken b r)) (some (taken c r')) h same =
    elim (Bool-cases (ltb msgbuf_size (moved_out k m))) [
      | inl past ↦ rw past tt
      | inr fits ↦ rw fits (
        refl,
        ap (λ x. overlay (take (moved_out k m) x) m.msg) same.0,
        record {
          contents = put_at-AllSame s.queues t.queues m.key r r' h.contents same.1;
          counters = h.counters;
          heap = ap (λ x. vfree (kfree x)) h.heap;
        },
      )
    ]
deliver-SameReply k s t m none (some absent) h same = absurd same
deliver-SameReply k s t m none (some too_long) h same = absurd same
deliver-SameReply k s t m none (some (taken c r')) h same = absurd same
deliver-SameReply k s t m (some absent) none h same = absurd same
deliver-SameReply k s t m (some absent) (some too_long) h same = absurd same
deliver-SameReply k s t m (some absent) (some (taken c r')) h same = absurd same
deliver-SameReply k s t m (some too_long) none h same = absurd same
deliver-SameReply k s t m (some too_long) (some absent) h same = absurd same
deliver-SameReply k s t m (some too_long) (some (taken c r')) h same = absurd same
deliver-SameReply k s t m (some (taken b r)) none h same = absurd same
deliver-SameReply k s t m (some (taken b r)) (some absent) h same = absurd same
deliver-SameReply k s t m (some (taken b r)) (some too_long) h same = absurd same

msgrcv-SameReply :
    (k : Kernel) (s t : Driver) (m : MsgConfig)
    → Alike s t
    → SameReply (msgrcv k s m) (msgrcv k t m)
unfolding msgrcv
msgrcv-SameReply k s t m h =
    go (at s.queues m.key) (at t.queues m.key) (at-BothSame s.queues t.queues m.key h.contents)
  where
    go :
        (x y : Option (List Msgbuf))
        → BothSame x y
        → SameReply
            (x >>= λ q. look_for m q >>= deliver k s m)
            (y >>= λ q. look_for m q >>= deliver k t m)
    go none none same = tt
    go none (some p) same = absurd same
    go (some q) none same = absurd same
    go (some q) (some p) same =
        deliver-SameReply k s t m (look_for m q) (look_for m p) h (look_for-FoundSame m q p same)

enqueue-SameReply :
    (k : Kernel) (s t : Driver) (m : MsgConfig) (q p : List Msgbuf)
    → Alike s t
    → SameBoxes q p
    → SameReply (no_memory (enqueue k s m q)) (no_memory (enqueue k t m p))
unfolding enqueue
enqueue-SameReply k s t m q p h same =
    elim (Bool-cases (not (k.vmalloc_ok && k.kmalloc_ok) || ltb msgbuf_size (size_t m.msgsz))) [
      | inl stuck ↦ rw stuck tt
      | inr room ↦ rw room (
        refl,
        refl,
        record {
          contents =
              put_at-AllSame s.queues t.queues m.key (q ++ copied_in k m ∷ [])
                (p ++ copied_in k m ∷ []) h.contents (SameBoxes-append q p (copied_in k m) same);
          counters = h.counters;
          heap = ap (λ x. kmalloc (vmalloc x)) h.heap;
        },
      )
    ]

send_to : Kernel → Driver → MsgConfig → List Msgbuf → Option (ℕ × ℕ) → Option (ℤ × Driver)
send_to k s m q o = do
  (num, vol) ← o
  if gt_int ((vol + 4) % 2 ^ 32) kuipc_maxvol || ge_int num kuipc_maxmsg
      then some (minus_one, s)
      else enqueue k s m q

send_to-SameReply :
    (k : Kernel) (s t : Driver) (m : MsgConfig) (q p : List Msgbuf) (o : Option (ℕ × ℕ))
    → Alike s t
    → SameBoxes q p
    → SameReply (no_memory (send_to k s m q o)) (no_memory (send_to k t m p o))
unfolding send_to
send_to-SameReply k s t m q p none h same = tt
send_to-SameReply k s t m q p (some (num, vol)) h same =
    elim (Bool-cases (gt_int ((vol + 4) % 2 ^ 32) kuipc_maxvol || ge_int num kuipc_maxmsg)) [
      | inl full ↦ rw full (refl, refl, h)
      | inr room ↦ rw room (enqueue-SameReply k s t m q p h same)
    ]

msgsnd-SameReply :
    (k : Kernel) (s t : Driver) (m : MsgConfig)
    → Alike s t
    → SameReply (no_memory (msgsnd k s m)) (no_memory (msgsnd k t m))
unfolding msgsnd send_to
msgsnd-SameReply k s t m h =
    go (at s.queues m.key) (at t.queues m.key) (at-BothSame s.queues t.queues m.key h.contents)
  where
    go :
        (x y : Option (List Msgbuf))
        → BothSame x y
        → SameReply
            (no_memory (x >>= λ q. send_to k s m q (tally q 0 0)))
            (no_memory (y >>= λ q. send_to k t m q (tally q 0 0)))
    go none none same = tt
    go none (some p) same = absurd same
    go (some q) none same = absurd same
    go (some q) (some p) same =
        rw⁻¹ (SameBoxes-tally q p same 0 0) (send_to-SameReply k s t m q p (tally q 0 0) h same)

-- Counters that are set alike.
counted :
    (s t : Driver) (code : ℤ) (key : ℤ) (n : ℕ)
    → Alike s t
    → SameReply
        (some (code, [], record s { counters = put_at s.counters key n }))
        (some (code, [], record t { counters = put_at t.counters key n }))
counted s t code key n h = (
  refl,
  refl,
  record { contents = h.contents; counters = ap (λ c. put_at c key n) h.counters; heap = h.heap },
)

count_up-SameReply :
    (s t : Driver) (key : ℤ)
    → Alike s t
    → SameReply (no_memory (count_up s key)) (no_memory (count_up t key))
unfolding count_up
count_up-SameReply s t key h = elim (Option-cases (at t.counters key)) [
  | inl e ↦ rw (ap (λ c. at c key) h.counters ∙ e, e) tt
  | inr (c, e) ↦ rw (ap (λ l. at l key) h.counters ∙ e, e) (counted s t key key (succ_int c) h)
]

msgget-SameReply :
    (s t : Driver) (q : Qid)
    → Alike s t
    → SameReply (no_memory (msgget s q)) (no_memory (msgget t q))
unfolding msgget
msgget-SameReply s t q h = elim (Bool-cases (q.msgflg == bit_or ku_ipc_creat ku_ipc_excl)) [
  | inl excl ↦ elim (Option-cases (at t.counters q.key)) [
    | inl e ↦ rw (excl, ap (λ c. at c q.key) h.counters ∙ e, e) tt
    | inr (c, e) ↦ elim (Bool-cases (c == 0)) [
      | inl unused ↦
          rw (excl, ap (λ l. at l q.key) h.counters ∙ e, e, unused)
            (counted s t q.key q.key (succ_int c) h)
      | inr used ↦ rw (excl, ap (λ l. at l q.key) h.counters ∙ e, e, used) (refl, refl, h)
    ]
  ]
  | inr other ↦ elim (Bool-cases (q.msgflg == ku_ipc_creat)) [
    | inl create ↦ rw (other, create) (count_up-SameReply s t q.key h)
    | inr none_of ↦ rw (other, none_of) (refl, refl, h)
  ]
]

msgclose-SameReply :
    (s t : Driver) (msqid : ℤ)
    → Alike s t
    → SameReply (no_memory (msgclose s msqid)) (no_memory (msgclose t msqid))
unfolding msgclose
msgclose-SameReply s t msqid h = elim (Option-cases (at t.counters msqid)) [
  | inl e ↦ rw (ap (λ c. at c msqid) h.counters ∙ e, e) tt
  | inr (c, e) ↦
      elim (Bool-cases (c == 0 || is_negative msqid || not (ltb_ℤ msqid (pos queue_num)))) [
        | inl refused ↦ rw (ap (λ l. at l msqid) h.counters ∙ e, e, refused) (refl, refl, h)
        | inr counts ↦
            rw (ap (λ l. at l msqid) h.counters ∙ e, e, counts)
              (counted s t ok_code msqid (c - 1) h)
      ]
]

ioctl-SameReply :
    (k : Kernel) (s t : Driver) (r : Request) → Alike s t → SameReply (ioctl k s r) (ioctl k t r)
unfolding ioctl
ioctl-SameReply k s t (get q) h = msgget-SameReply s t q h
ioctl-SameReply k s t (close arg) h = msgclose-SameReply s t (as_int arg) h
ioctl-SameReply k s t (receive m) h = msgrcv-SameReply k s t m h
ioctl-SameReply k s t (send m) h = msgsnd-SameReply k s t m h
ioctl-SameReply k s t unknown h = (refl, refl, h)

-- What a history of calls returns, and the memory that each leaves; `none` when one faults.
unfoldable pub replies : List (Kernel × Request) → Driver → Option (List (ℤ × List ℕ))
replies [] s = some []
replies ((k, r) ∷ calls) s = do
  t ← ioctl k s r
  Option.map (λ rest. (t.0, t.1) ∷ rest) (replies calls t.2)

resume-replies :
    (calls : List (Kernel × Request)) (x y : Option (ℤ × List ℕ × Driver))
    → SameReply x y
    → ((s t : Driver) → Alike s t → replies calls s ≡ replies calls t)
    → (x >>= λ t. Option.map (λ rest. (t.0, t.1) ∷ rest) (replies calls t.2))
      ≡ (y >>= λ t. Option.map (λ rest. (t.0, t.1) ∷ rest) (replies calls t.2))
resume-replies calls none none same later = refl
resume-replies calls none (some b) same later = absurd same
resume-replies calls (some a) none same later = absurd same
resume-replies calls (some a) (some b) same later = rw (same.0, same.1, later a.2 b.2 same.2) refl

-- Drivers whose queues have the same contents, the order between messages of different types forgotten, give the same replies in every
-- history of calls, whatever the calls pass and the kernel does, and fault together.
pub replies-Alike :
    (calls : List (Kernel × Request)) (s t : Driver) → Alike s t → replies calls s ≡ replies calls t
unfolding replies
replies-Alike [] s t h = refl
replies-Alike ((k, r) ∷ calls) s t h =
    resume-replies calls (ioctl k s r) (ioctl k t r) (ioctl-SameReply k s t r h)
      λ s' t' h'. replies-Alike calls s' t' h'
