-- ===== src/KuIpc/Tests.antt =====
-- Instances and runs of the message queue driver and its library.
use embedded_system_software.Base.{
  ℕ, ◌≡◌, refl, none, some, IsSome, List, [], ◌∷◌, arith, set, take, replicate, overlay, pos,
  ok_code,
}
use embedded_system_software.Libc.{posix, posix-IsLibc}
use embedded_system_software.Kernel.{
  Kernel, serving, serving-IsServing, no_calls, kmalloc, vmalloc, kfree, vfree,
}
use embedded_system_software.KuIpc.ByType.{
  Op, put, receive_first, run_queue, run_boxes, run_queue-boxes,
}
use embedded_system_software.KuIpc.{absent, taken, look_for}
use embedded_system_software.KuIpc.{
  zeroed, Msgbuf, Driver, MsgConfig, Request, get, close, send, receive, init, exit, ioctl, msgsnd,
  msgrcv, msgget,
}
use embedded_system_software.KuIpc.Volume.{IsMessage, volume}
use embedded_system_software.KuIpc.Message.{message_of, message_of-IsMessage}
use embedded_system_software.KuIpc.Send.{msgsnd-sent}
use embedded_system_software.KuIpc.Receive.{msgrcv-oldest}
use embedded_system_software.KuIpc.Invariant.{Inv, init-Inv, IsQueue, IsBounded}
use embedded_system_software.KuIpc.Safety.{run, run-init-Inv}
use embedded_system_software.KuIpc.Protocol.{create, exit_frees_all, send-receive}
use embedded_system_software.KuIpc.Isolation.{SameAt, ioctl-SameAt}
use embedded_system_software.KuIpc.Client.{Process, waiting, ku_msgrcv}
use embedded_system_software.KuIpc.Waiting.{ku_msgrcv-stuck}

-- A message of type 1 with the text "hello", as in ku_ipc_app.c.
abbrev hello : List ℕ
hello = 1 ∷ 0 ∷ 0 ∷ 0 ∷ 0 ∷ 0 ∷ 0 ∷ 0 ∷ b'h' ∷ b'e' ∷ b'l' ∷ b'l' ∷ b'o' ∷ 0 ∷ []

abbrev sending : MsgConfig
sending = record { key = pos 1; msg = hello; msgsz = pos 14; msgtyp = 0; msgflg = 0 }

abbrev receiving : MsgConfig
receiving = record { key = pos 1; msg = replicate 14 0; msgsz = pos 14; msgtyp = 1; msgflg = 0 }

-- A receiver with room for the type and two bytes.
abbrev cramped : MsgConfig
cramped = record { key = pos 1; msg = replicate 14 0; msgsz = pos 10; msgtyp = 1; msgflg = 0 }

abbrev empty_queues : List (List Msgbuf)
empty_queues = replicate 10 []

abbrev loaded : Driver
loaded = record { queues = empty_queues; counters = replicate 10 0; heap = no_calls }

abbrev greeting : Msgbuf
greeting = message_of 14 hello

abbrev holding : Driver
holding = record {
  queues = set empty_queues 1 (greeting ∷ []);
  counters = replicate 10 0;
  heap = kmalloc (vmalloc no_calls);
}

abbrev joined : Process
joined = record { queue_use = set (replicate 10 0) 1 1; driver = holding }

sending-IsBounded : IsBounded 135 sending
sending-IsBounded = record {
  index = 1;
  size = 14;
  key_is = refl;
  size_is = refl;
  in_range = omega arith;
  fits = omega arith;
  mapped = omega arith;
}

receiving-IsBounded : IsBounded 136 receiving
receiving-IsBounded = record {
  index = 1;
  size = 14;
  key_is = refl;
  size_is = refl;
  in_range = omega arith;
  fits = omega arith;
  mapped = omega arith;
}

abbrev history : List (Kernel × Request)
history =
    (serving, get (create (pos 1)))
    ∷ (serving, send sending)
    ∷ (serving, receive receiving)
    ∷ (serving, close 1)
    ∷ []

greeting-IsMessage : IsMessage greeting
greeting-IsMessage = message_of-IsMessage 14 hello (omega arith)

none-IsQueue : IsQueue []
none-IsQueue = record { few = omega arith; whole = tt }

run-init-Inv_example : (t : Driver) × (run history (init (pos 0)).1 ≡ some t) × Inv t
run-init-Inv_example = run-init-Inv (pos 0) history (
  serving-IsServing,
  (1, refl, omega arith),
  (
    serving-IsServing,
    sending-IsBounded,
    (serving-IsServing, receiving-IsBounded, (serving-IsServing, omega arith, tt)),
  ),
)

send-receive_example :
    (s' s'' : Driver) × (msgsnd serving loaded sending ≡ some (ok_code, s'))
    × (msgrcv serving s' receiving ≡ some (ok_code, hello, s''))
    × (s''.queues ≡ empty_queues)
    × (s''.counters ≡ replicate 10 0)
unfolding zeroed volume
send-receive_example =
    send-receive serving loaded sending receiving serving-IsServing refl none-IsQueue refl refl
      (omega arith) (omega arith) refl refl refl (omega arith) tt refl

msgsnd-sent_example : msgsnd serving loaded sending ≡ some (ok_code, holding)
unfolding volume
msgsnd-sent_example =
    msgsnd-sent serving loaded sending refl tt (omega arith) serving-IsServing refl (omega arith)
      (omega arith)

msgrcv-oldest_example :
    msgrcv serving holding receiving
    ≡ some (
      ok_code,
      overlay (take 14 greeting) (replicate 14 0),
      record loaded { heap = vfree (kfree holding.heap) },
    )
unfolding zeroed
msgrcv-oldest_example =
    msgrcv-oldest serving holding receiving [] greeting [] refl tt greeting-IsMessage refl
      serving-IsServing refl (omega arith) (omega arith)

exit_frees_all_example :
    ((exit (init (pos 0)).1).kfrees ≡ (exit (init (pos 0)).1).kmallocs)
    × ((exit (init (pos 0)).1).vfrees ≡ (exit (init (pos 0)).1).vmallocs)
exit_frees_all_example = exit_frees_all (init (pos 0)).1 (init-Inv (pos 0))

ioctl-SameAt_example : SameAt (pos 2) loaded (record loaded { counters = set (replicate 10 0) 1 1 })
unfolding ioctl msgget
ioctl-SameAt_example =
    ioctl-SameAt serving loaded (pos 2) (record loaded { counters = set (replicate 10 0) 1 1 })
      (get (create (pos 1))) (pos 1) [] refl (λ e. ground arith)

ku_msgrcv-stuck_example :
    ku_msgrcv posix serving ((serving, []) ∷ (serving, []) ∷ []) joined (pos 3) cramped
    ≡ some (waiting holding)
unfolding zeroed
ku_msgrcv-stuck_example =
    ku_msgrcv-stuck posix posix-IsLibc [] greeting [] joined cramped refl tt greeting-IsMessage refl
      refl (omega arith) (omega arith) refl serving (serving ∷ serving ∷ []) (pos 3)
      (serving-IsServing, (serving-IsServing, (serving-IsServing, tt))) refl (omega arith) refl refl

-- Two messages of type 1 around one of type 2, and receivers that ask for type 2, type 1 and type 3.
abbrev typed : ℕ → ℕ → Msgbuf
typed type letter = type ∷ 0 ∷ 0 ∷ 0 ∷ 0 ∷ 0 ∷ 0 ∷ 0 ∷ letter ∷ 0 ∷ []

abbrev asking : ℕ → MsgConfig
asking type = record receiving { msgtyp = type }

abbrev exchange : List Op
exchange =
    put (typed 1 97)
    ∷ put (typed 2 98)
    ∷ put (typed 1 99)
    ∷ receive_first (asking 2)
    ∷ receive_first (asking 1)
    ∷ receive_first (asking 3)
    ∷ []

run_queue-boxes_example : run_queue exchange [] ≡ run_boxes exchange (λ t. [])
run_queue-boxes_example = run_queue-boxes exchange []

exchange-answers :
    run_queue exchange [] ≡ some (taken (typed 2 98) [] ∷ taken (typed 1 97) [] ∷ absent ∷ [])
unfolding run_queue look_for
exchange-answers = refl

-- A message of 136 bytes has no terminator, and is accepted; the volume test of the next send reads past it.
abbrev whole_buffer : MsgConfig
whole_buffer = record sending { msg = replicate 136 7; msgsz = pos 136 }

whole_buffer-faults :
    run ((serving, send whole_buffer) ∷ (serving, send whole_buffer) ∷ []) loaded ≡ none
unfolding run ioctl msgsnd volume zeroed
whole_buffer-faults = refl

whole_buffer-accepted : IsSome (run ((serving, send whole_buffer) ∷ []) loaded)
unfolding run ioctl msgsnd volume zeroed
whole_buffer-accepted = tt
