-- ===== src/KuIpc/Isolation.antt =====
-- The queues of the driver are independent of one another.
use embedded_system_software.Base.{
  ℕ, ◌-◌, ◌≡◌, refl, ap, ◌≢◌, inl, inr, Option, none, some, List, [], ◌∷◌, ◌++◌, arith,
  Option-cases, ◌>>=◌, ℤ, as_int, at, at-put_at_ne,
}
use embedded_system_software.Kernel.{Kernel}
use embedded_system_software.KuIpc.{
  Qid, Driver, MsgConfig, Found, absent, too_long, taken, Request, get, close, send, receive,
  unknown, msgget, msgclose, msgsnd, msgrcv, ioctl, deliver, look_for, succ_int, copied_in,
}

-- The queue that a request names.
abbrev pub key_of : Request → Option ℤ
key_of (get q) = some q.key
key_of (close arg) = some (as_int arg)
key_of (receive m) = some m.key
key_of (send m) = some m.key
key_of unknown = none

abbrev pub SameAt : ℤ → Driver → Driver → Type 0
SameAt j s t = (at t.queues j ≡ at s.queues j) × (at t.counters j ≡ at s.counters j)

-- What a call gives, unless it faults.
abbrev Leaves : ℤ → Driver → Option (ℤ × List ℕ × Driver) → Type 0
Leaves j s none = Unit {0}
Leaves j s (some (code, mem, t)) = SameAt j s t

module _ (k : Kernel) (s : Driver) (j : ℤ) where
  get-Leaves : (q : Qid) → q.key ≢ j → Leaves j s (ioctl k s (get q))
  unfolding ioctl msgget
  get-Leaves q h = elim (Option-cases (at s.counters q.key)) [
    | inl e ↦ ground arith
    | inr (c, e) ↦ ground (arith, at-put_at_ne s.counters q.key j (succ_int c) h)
  ]

  close-Leaves : (arg : ℕ) → as_int arg ≢ j → Leaves j s (ioctl k s (close arg))
  unfolding ioctl msgclose
  close-Leaves arg h = elim (Option-cases (at s.counters (as_int arg))) [
    | inl e ↦ rw e tt
    | inr (c, e) ↦ ground (arith, at-put_at_ne s.counters (as_int arg) j (c - 1) h)
  ]

  deliver-Leaves :
      (m : MsgConfig) → m.key ≢ j → (o : Option Found) → Leaves j s (o >>= deliver k s m)
  unfolding deliver
  deliver-Leaves m h none = tt
  deliver-Leaves m h (some absent) = (refl, refl)
  deliver-Leaves m h (some too_long) = (refl, refl)
  deliver-Leaves m h (some (taken b rest)) = ground (arith, at-put_at_ne s.queues m.key j rest h)

  receive-Leaves : (m : MsgConfig) → m.key ≢ j → Leaves j s (ioctl k s (receive m))
  unfolding ioctl msgrcv
  receive-Leaves m h = elim (Option-cases (at s.queues m.key)) [
    | inl e ↦ rw e tt
    | inr (q, e) ↦ rw e (deliver-Leaves m h (look_for m q))
  ]

  send-Leaves : (m : MsgConfig) → m.key ≢ j → Leaves j s (ioctl k s (send m))
  unfolding ioctl msgsnd
  send-Leaves m h = elim (Option-cases (at s.queues m.key)) [
    | inl e ↦ rw e tt
    | inr (q, e) ↦ ground (arith, at-put_at_ne s.queues m.key j (q ++ (copied_in k m ∷ [])) h)
  ]

  ioctl-Leaves : (r : Request) → key_of r ≢ some j → Leaves j s (ioctl k s r)
  unfolding ioctl
  ioctl-Leaves (get q) h = get-Leaves q λ e. h (ap some e)
  ioctl-Leaves (close arg) h = close-Leaves arg λ e. h (ap some e)
  ioctl-Leaves (receive m) h = receive-Leaves m λ e. h (ap some e)
  ioctl-Leaves (send m) h = send-Leaves m λ e. h (ap some e)
  ioctl-Leaves unknown h = (refl, refl)

  -- A call that does not fault changes neither the queue nor the counter of any key but its own.
  pub ioctl-SameAt :
      (t : Driver) (r : Request) (code : ℤ) (mem : List ℕ)
      → ioctl k s r ≡ some (code, mem, t)
      → key_of r ≢ some j
      → SameAt j s t
  ioctl-SameAt t r code mem e h = rw e at (ioctl-Leaves r h)
