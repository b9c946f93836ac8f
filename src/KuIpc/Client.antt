-- ===== src/KuIpc/Client.antt =====
-- assignment1/ku_ipc_lib.c: what a process calls. Each function opens the device, makes one or more
-- `ioctl` calls and closes it; what other processes do between two calls of a waiting function is a
-- list of calls of the driver. `ioctl` is libc's: it turns the driver's code into its own result.
use mathlib.Core.Option
use embedded_system_software.Base.{
  ℕ, Bool, true, false, not, ◌||◌, Option, some, List, [], ◌∷◌, ◌==◌, if◌then◌else◌, ◌>>=◌, ℤ,
  eqb_ℤ, is_negative, minus_one, minus_two, as_int, at, put_at, has_flag,
}
use embedded_system_software.Libc.{Libc}
use embedded_system_software.Kernel.{Kernel}
use embedded_system_software.KuIpc.{
  Driver, MsgConfig, Request, get, close, send, receive, ku_ipc_nowait, size_t, volume_of, ioctl,
}
use embedded_system_software.KuIpc.Safety.{run}

-- The variables of a process, with the driver that all processes share: `queue_use`.
pub record Process : Type 0 where
  pub queue_use : List ℕ
  pub driver : Driver

-- One `ioctl` of the library: the result, the user memory, the driver.
abbrev pub call : Libc → Kernel → Driver → Request → Option (ℤ × List ℕ × Driver)
call c k s r = Option.map (λ t. (c.result t.0, t.1, t.2)) (ioctl k s r)

-- The calls of the others before a retry, and what the kernel answers to the retry.
abbrev pub Round : Type 0
Round = Kernel × List (Kernel × Request)

-- A function that waits either returns, with the user memory of its message, or waits still.
pub data Waited : Type 0 where
  returned : ℤ → List ℕ → Driver → Waited
  waiting : Driver → Waited

-- The result of a receive: the length of what arrived, read from the caller's buffer.
unfoldable pub received_length : Waited → Option Waited
received_length (waiting s) = some (waiting s)
received_length (returned ret mem s) =
    if eqb_ℤ ret minus_one
    then some (returned ret mem s)
    else if eqb_ℤ ret minus_two
    then some (returned minus_one mem s)
    else Option.map (λ v. returned (as_int v) mem s) (volume_of mem)

module _ (c : Libc) where
  -- `fd` is what `open` returns.
  unfoldable pub ku_msgget : Kernel → Process → ℤ → ℤ → ℕ → Option (ℤ × Process)
  ku_msgget k p fd key msgflg = do
    used ← at p.queue_use key
    if not (used == 0) || is_negative fd then some (minus_one, p) else (do
      (ret, mem, s) ← call c k p.driver (get (record { key = key; msgflg = msgflg }))
      if is_negative ret then some (ret, record p { driver = s }) else (do
        old ← at p.queue_use ret
        some (ret, record { queue_use = put_at p.queue_use ret 1; driver = s })))

  unfoldable pub ku_msgclose : Kernel → Process → ℤ → ℤ → Option (ℤ × Process)
  ku_msgclose k p fd msqid = do
    used ← at p.queue_use msqid
    if used == 0 || is_negative fd then some (minus_one, p) else (do
      (ret, mem, s) ← call c k p.driver (close (size_t msqid))
      some (
        ret,
        record {
          queue_use = if is_negative ret then p.queue_use else put_at p.queue_use msqid 0;
          driver = s;
        },
      ))

  -- The waiting loop: while the result asks for it, the others go on and the call is made again.
  -- Each round has the calls of the others and the kernel's answers to this one; the loop still waits
  -- when the rounds are over.
  unfoldable pub retry : (ℤ → Bool) → Request → List Round → ℤ → List ℕ → Driver → Option Waited
  retry again r [] ret mem s = some (if again ret then waiting s else returned ret mem s)
  retry again r ((k, others) ∷ rounds) ret mem s = elim (again ret) [
    | false ↦ some (returned ret mem s)
    | true ↦ run others s >>= λ s'. call c k s' r >>= λ t. retry again r rounds t.0 t.1 t.2
  ]

  -- `msgtyp` is not set by the sender; the request holds what the stack had there.
  unfoldable pub ku_msgsnd : Kernel → List Round → Process → ℤ → MsgConfig → Option Waited
  ku_msgsnd k rounds p fd m = do
    used ← at p.queue_use m.key
    if used == 0 || is_negative fd then some (returned minus_one m.msg p.driver) else (do
      (ret, mem, s) ← call c k p.driver (send m)
      if has_flag m.msgflg ku_ipc_nowait
          then some (returned ret mem s)
          else retry is_negative (send m) rounds ret mem s)

  unfoldable pub ku_msgrcv : Kernel → List Round → Process → ℤ → MsgConfig → Option Waited
  ku_msgrcv k rounds p fd m = do
    used ← at p.queue_use m.key
    if used == 0 || is_negative fd then some (returned minus_one m.msg p.driver) else (do
      (ret, mem, s) ← call c k p.driver (receive m)
      waited ←
          (if has_flag m.msgflg ku_ipc_nowait
            then some (returned ret mem s)
            else retry (eqb_ℤ minus_one) (receive m) rounds ret mem s)
      received_length waited)
