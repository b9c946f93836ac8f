-- ===== src/KuIpc/Mailboxes/Tests.antt =====
-- Two messages of different types, in one order and in the other.
use embedded_system_software.Base.{
  ◌-◌, ℕ, ◌≡◌, refl, ◌↔◌, inl, inr, List, [], ◌∷◌, arith, ◌==◌, Bool-cases, replicate, pos,
}
use mathlib.Core.Quot.{Quot}
use embedded_system_software.Kernel.{Kernel, serving, serving-IsServing}
use embedded_system_software.KuIpc.{send, msgbuf_size, zeroed}
use embedded_system_software.KuIpc.Volume.{volume}
use embedded_system_software.KuIpc.Invariant.{IsBounded}
use embedded_system_software.KuIpc.Commute.{sends-swap}
use embedded_system_software.KuIpc.{Msgbuf, MsgConfig, Driver, Request, receive, close}
use embedded_system_software.KuIpc.ByType.{Op, run_queue}
use embedded_system_software.KuIpc.Mailboxes.{Contents, SameBoxes, contents-observed}
use embedded_system_software.KuIpc.Alike.{Alike}
use embedded_system_software.KuIpc.Replies.{replies, replies-Alike}

-- A message of a type with an empty text.
abbrev note : ℕ → Msgbuf
note t = t ∷ replicate 135 0

abbrev straight : List Msgbuf
straight = note 1 ∷ note 2 ∷ []

abbrev swapped : List Msgbuf
swapped = note 2 ∷ note 1 ∷ []

contents-observed_example :
    (Path Contents (Quot.mk straight) (Quot.mk swapped))
    ↔ ((ops : List Op) → run_queue ops straight ≡ run_queue ops swapped)
contents-observed_example = contents-observed straight swapped

-- A driver with the messages in its second queue.
abbrev holding : List Msgbuf → Driver
holding q = record {
  queues = [] ∷ q ∷ replicate 8 [];
  counters = 0 ∷ 1 ∷ replicate 8 0;
  heap = record { kmallocs = 2; kfrees = 0; vmallocs = 2; vfrees = 0 };
}

straight-SameBoxes : SameBoxes straight swapped
straight-SameBoxes t = elim (Bool-cases (t == 1)) [
  | inl one ↦ ground arith
  | inr other ↦ ground arith
]

holding-Alike : Alike (holding straight) (holding swapped)
holding-Alike = record {
  contents = (
    λ t. refl,
    (
      straight-SameBoxes,
      (
        λ t. refl,
        (
          λ t. refl,
          (λ t. refl, (λ t. refl, (λ t. refl, (λ t. refl, (λ t. refl, (λ t. refl, tt)))))),
        ),
      ),
    ),
  );
  counters = refl;
  heap = refl;
}

abbrev ask : ℕ → MsgConfig
ask t = record { key = pos 1; msg = replicate 136 0; msgsz = pos 136; msgtyp = t; msgflg = 0 }

abbrev calls : List (Kernel × Request)
calls =
    (serving, receive (ask 2))
    ∷ (serving, receive (ask 3))
    ∷ (serving, receive (ask 1))
    ∷ (serving, close 1)
    ∷ []

replies-Alike_example : replies calls (holding straight) ≡ replies calls (holding swapped)
replies-Alike_example = replies-Alike calls (holding straight) (holding swapped) holding-Alike

-- A send of a message of a type with an empty text.
abbrev give : ℕ → MsgConfig
give t = record { key = pos 1; msg = t ∷ replicate 8 0; msgsz = pos 9; msgtyp = 0; msgflg = 0 }

give-IsBounded : (t : ℕ) → IsBounded (msgbuf_size - 1) (give t)
give-IsBounded t = record {
  index = 1;
  size = 9;
  key_is = refl;
  size_is = refl;
  in_range = omega arith;
  fits = omega arith;
  mapped = omega arith;
}

sends-swap_example :
    replies ((serving, send (give 1)) ∷ (serving, send (give 2)) ∷ calls) (holding [])
    ≡ replies ((serving, send (give 2)) ∷ (serving, send (give 1)) ∷ calls) (holding [])
unfolding volume zeroed give-IsBounded
sends-swap_example =
    sends-swap serving serving-IsServing (holding []) (give 1) (give 2) (give-IsBounded 1)
      (give-IsBounded 2) [] calls refl refl (record { few = omega arith; whole = tt }) refl refl
      refl
