-- ===== src/KuIpc/Waiting.antt =====
-- What the library's waiting functions never see.
use embedded_system_software.Base.{
  as_int-small, set-set, ℕ, ◌+◌, ◌-◌, ◌^◌, ◌≤◌, ◌<◌, bit_or, ◌≡◌, refl, ◌≢◌, true, false, some,
  List, [], ◌∷◌, ◌++◌, map, arith, ◌==◌, ◌>>=◌, length, get_elem?, set, All, get_elem?-set_self,
  lt_of_get_elem?, ℤ, pos, eqb_ℤ, is_negative, ok_code, minus_one, at, put_at, has_flag,
}
use embedded_system_software.Libc.{Libc, IsLibc}
use embedded_system_software.Kernel.{Kernel, IsServing}
use embedded_system_software.KuIpc.{
  Msgbuf, MsgConfig, receive, ku_ipc_nowait, ku_ipc_creat, ku_ipc_excl, queue_num, msgbuf_size,
  type_of, ioctl, msgget, msgclose,
}
use embedded_system_software.KuIpc.Volume.{IsMessage}
use embedded_system_software.KuIpc.Receive.{is_accepted, IsOther, msgrcv-oldest}
use embedded_system_software.KuIpc.Safety.{run}
use embedded_system_software.KuIpc.Client.{
  Process, waiting, call, retry, received_length, ku_msgget, ku_msgclose, ku_msgrcv,
}

nonzero : (n : ℕ) → n ≢ 0 → (n == 0) ≡ false
nonzero n h = ground arith

module _ (c : Libc) (libc : IsLibc c) where
  module _ (before : List Msgbuf) (b : Msgbuf) (after : List Msgbuf) {n : ℕ} (p : Process)
      (m : MsgConfig) (found : at p.driver.queues m.key ≡ some (before ++ (b ∷ after)))
      (others : All (IsOther m.msgtyp) before) (whole : IsMessage b)
      (same : (m.msgtyp == type_of b) ≡ true) (size : m.msgsz ≡ pos n) (fits : n ≤ msgbuf_size)
      (there : n ≤ length m.msg) (refused : is_accepted m b ≡ false) where
    too_long_call :
        (k : Kernel)
        → IsServing k
        → call c k p.driver (receive m) ≡ some (minus_one, m.msg, p.driver)
    unfolding ioctl
    too_long_call k serves = rw (
      msgrcv-oldest k p.driver m before b after found others whole same serves size fits there,
      refused,
      libc.fails 1 (omega arith),
    )

    stuck_rounds :
        (ks : List Kernel)
        → All IsServing ks
        → retry c (eqb_ℤ minus_one) (receive m) (map (λ k. (k, [])) ks) minus_one m.msg p.driver
          ≡ some (waiting p.driver)
    unfolding retry run
    stuck_rounds [] serves = refl
    stuck_rounds (k ∷ ks) serves = rw (too_long_call k serves.0) (stuck_rounds ks serves.1)

    -- A receiver that may wait, and whose buffer is too small for the oldest message of its type, waits for ever:
    -- however often it calls the driver while nobody else does, it has not returned.
    pub ku_msgrcv-stuck :
        (k : Kernel) (ks : List Kernel) (fd : ℤ) {used : ℕ}
        → All IsServing (k ∷ ks)
        → at p.queue_use m.key ≡ some used
        → used ≢ 0
        → is_negative fd ≡ false
        → has_flag m.msgflg ku_ipc_nowait ≡ false
        → ku_msgrcv c k (map (λ k. (k, [])) ks) p fd m ≡ some (waiting p.driver)
    unfolding ku_msgrcv received_length
    ku_msgrcv-stuck k ks fd {used} serves e u o w =
        rw (e, nonzero used u, o, too_long_call k serves.0, w, stuck_rounds ks serves.1)

-- With neither IPC_CREAT nor IPC_CREAT | IPC_EXCL, `ku_msgget` returns 0 and marks queue 0 as one that this
-- process uses, whatever key it was given, and the driver counts no user of it.
ku_msgget-no_flags :
    (c : Libc)
    → IsLibc c
    → (k : Kernel) (p : Process) (fd key : ℤ) (msgflg old : ℕ) → at p.queue_use key ≡ some 0
    → is_negative fd ≡ false
    → msgflg ≢ ku_ipc_creat
    → msgflg ≢ bit_or ku_ipc_creat ku_ipc_excl
    → at p.queue_use (pos 0) ≡ some old
    → ku_msgget c k p fd key msgflg
      ≡ some (ok_code, record p { queue_use = put_at p.queue_use (pos 0) 1 })
unfolding ku_msgget ioctl msgget
ku_msgget-no_flags c libc k p fd key msgflg old unused o no_creat no_excl zeroth =
    rw (unused, o) (ground (arith, libc.passes 0))

add_one-sub : (n : ℕ) → n + 1 - 1 ≡ n
add_one-sub n = omega arith

module _ (c : Libc) (libc : IsLibc c) (k : Kernel) (p : Process) (fd : ℤ) (i n : ℕ)
    (h : i < queue_num) (counted : get_elem? p.driver.counters i ≡ some n)
    (o : is_negative fd ≡ false) where
  ku_msgget-create :
      get_elem? p.queue_use i ≡ some 0
      → n + 1 < 2 ^ 32
      → ku_msgget c k p fd (pos i) ku_ipc_creat
        ≡ some (
          pos i,
          record {
            queue_use = set p.queue_use i 1;
            driver = record p.driver { counters = set p.driver.counters i (n + 1) };
          },
        )
  unfolding ku_msgget ioctl msgget
  ku_msgget-create unused small = rw (unused, o, counted, libc.passes i) (rw unused (ground arith))

  ku_msgclose-used :
      {used : ℕ}
      → get_elem? p.queue_use i ≡ some used
      → used ≢ 0
      → n ≢ 0
      → ku_msgclose c k p fd (pos i)
        ≡ some (
          ok_code,
          record {
            queue_use = set p.queue_use i 0;
            driver = record p.driver { counters = set p.driver.counters i (n - 1) };
          },
        )
  unfolding ku_msgclose ioctl msgclose
  ku_msgclose-used {used} u nz pos_n =
      rw (u, nonzero used nz, o, as_int-small i (omega arith), counted, nonzero n pos_n)
        (ground (arith, libc.passes 0))

-- A process that creates its use of a queue and gives it back leaves its table and the driver as they were.
ku_msgclose-ku_msgget :
    (c : Libc)
    → IsLibc c
    → (k k' : Kernel) (p : Process) (fd fd' : ℤ) (i n : ℕ) → i < queue_num
    → get_elem? p.queue_use i ≡ some 0
    → get_elem? p.driver.counters i ≡ some n
    → n + 1 < 2 ^ 32
    → is_negative fd ≡ false
    → is_negative fd' ≡ false
    → (ku_msgget c k p fd (pos i) ku_ipc_creat >>= λ t. ku_msgclose c k' t.1 fd' (pos i))
      ≡ some (ok_code, p)
ku_msgclose-ku_msgget c libc k k' p fd fd' i n h unused counted small o o' =
    rw (ku_msgget-create c libc k p fd i n h counted o unused small) (
      rw
        (ku_msgclose-used c libc k'
          (record {
            queue_use = set p.queue_use i 1;
            driver = record p.driver { counters = set p.driver.counters i (n + 1) };
          })
          fd' i (n + 1) h
          (get_elem?-set_self p.driver.counters i (n + 1)
            (lt_of_get_elem? p.driver.counters i n counted))
          o' (get_elem?-set_self p.queue_use i 1 (lt_of_get_elem? p.queue_use i 0 unused))
          (omega arith) (omega arith))
        (rw (
          (add_one-sub n),
          set-set p.queue_use i 1 0 unused,
          set-set p.driver.counters i (n + 1) n counted,
        )))
