-- ===== src/KuIpc/Commute.antt =====
-- Messages of different types that two processes send at the same time: it makes no difference who comes first.
use embedded_system_software.Base.{
  ℕ, zero, suc, ◌-◌, ◌≡◌, refl, sym, ap, subst, ◌∙◌, false, some, List, [], ◌∷◌, ◌++◌, arith, ◌==◌,
  set, length-append, All-append, ℤ, pos, negsuc, ok_code, at, put_at, at-put_at_self,
}
use mathlib.Core.Option
use embedded_system_software.Kernel.{Kernel, IsServing, Heap, kmalloc, vmalloc}
use embedded_system_software.KuIpc.{
  Msgbuf, MsgConfig, Driver, Request, send, type_of, ioctl, msgbuf_size,
}
use embedded_system_software.KuIpc.Volume.{IsMessage, volume-append}
use embedded_system_software.KuIpc.Message.{message_of, message_of-IsMessage}
use embedded_system_software.KuIpc.Send.{is_full, msgsnd-sent}
use embedded_system_software.KuIpc.Invariant.{IsQueue, IsBounded}
use embedded_system_software.KuIpc.ByType.{of_type-append}
use embedded_system_software.KuIpc.Mailboxes.{SameBoxes}
use embedded_system_software.KuIpc.Alike.{AllSame, Alike, put_at-AllSame}
use embedded_system_software.KuIpc.Replies.{replies, replies-Alike}

AllSame-refl : (qs : List (List Msgbuf)) → AllSame qs qs
AllSame-refl [] = tt
AllSame-refl (q ∷ qs) = (λ t. refl, AllSame-refl qs)

SameBoxes-swap :
    (q : List Msgbuf) (a b : Msgbuf)
    → (type_of a == type_of b) ≡ false
    → SameBoxes ((q ++ a ∷ []) ++ b ∷ []) ((q ++ b ∷ []) ++ a ∷ [])
SameBoxes-swap q a b differ t = grind (arith, of_type-append)

set-twice :
    (xs : List (List Msgbuf)) (i : ℕ) (v w : List Msgbuf) → set (set xs i v) i w ≡ set xs i w
set-twice [] i v w = refl
set-twice (x ∷ xs) zero v w = refl
set-twice (x ∷ xs) (suc i) v w = ap (λ l. x ∷ l) (set-twice xs i v w)

put_at-twice :
    (xs : List (List Msgbuf)) (key : ℤ) (v w : List Msgbuf)
    → put_at (put_at xs key v) key w ≡ put_at xs key w
put_at-twice xs (pos i) v w = set-twice xs i v w
put_at-twice xs (negsuc i) v w = refl

-- A message more leaves no more room.
is_full-before : (q : List Msgbuf) (a : Msgbuf) → is_full (q ++ a ∷ []) ≡ false → is_full q ≡ false
is_full-before q a room = ground (arith, volume-append q (a ∷ []), length-append q (a ∷ []))

abbrev pub sent_by : {m : MsgConfig} → IsBounded (msgbuf_size - 1) m → Msgbuf
sent_by {m} b = message_of b.size m.msg

abbrev holding : Driver → ℤ → List Msgbuf → Heap → Driver
holding s key q h = record s { queues = put_at s.queues key q; heap = h }

module _ (k : Kernel) (serves : IsServing k) where
  -- A send to a queue with room.
  send-accepted :
      (s : Driver) (m : MsgConfig) (b : IsBounded (msgbuf_size - 1) m) (q : List Msgbuf)
      → at s.queues m.key ≡ some q
      → IsQueue q
      → is_full q ≡ false
      → ioctl k s (send m)
        ≡ some (ok_code, [], holding s m.key (q ++ sent_by b ∷ []) (kmalloc (vmalloc s.heap)))
  unfolding ioctl
  send-accepted s m b q found ok room =
      rw
        (
          msgsnd-sent k s m found ok.whole ok.few serves b.size_is (omega (arith, b.fits)) b.mapped,
          room,
        )
        refl

  IsQueue-more :
      (m : MsgConfig) (b : IsBounded (msgbuf_size - 1) m) (q : List Msgbuf)
      → IsQueue q
      → is_full q ≡ false
      → IsQueue (q ++ sent_by b ∷ [])
  IsQueue-more m b q ok room = record {
    few = ground (arith, length-append q (sent_by b ∷ []));
    whole =
        All-append IsMessage q (sent_by b ∷ []) ok.whole
          (message_of-IsMessage b.size m.msg (omega (arith, b.fits)), tt);
  }

  two_sends :
      (s : Driver) (m n : MsgConfig) (b : IsBounded (msgbuf_size - 1) m)
      (d : IsBounded (msgbuf_size - 1) n) (q : List Msgbuf) (calls : List (Kernel × Request))
      → n.key ≡ m.key
      → at s.queues m.key ≡ some q
      → IsQueue q
      → is_full (q ++ sent_by b ∷ []) ≡ false
      → replies ((k, send m) ∷ (k, send n) ∷ calls) s
        ≡ Option.map
            (λ rest. (ok_code, []) ∷ rest)
            (Option.map
              (λ rest. (ok_code, []) ∷ rest)
              (replies calls (
                holding s m.key
                  ((q ++ sent_by b ∷ []) ++ sent_by d ∷ [])
                  (kmalloc (vmalloc (kmalloc (vmalloc s.heap)))))))
  unfolding replies
  two_sends s m n b d q calls same found ok room =
      let before = is_full-before q (sent_by b) room in
      let r = q ++ sent_by b ∷ [] in
      let t = holding s m.key r (kmalloc (vmalloc s.heap)) in
      let there : at t.queues n.key ≡ some r =
        ap (at t.queues) same ∙ at-put_at_self s.queues m.key r q found in
      rw
        (
          send-accepted s m b q found ok before,
          send-accepted t n d r there (IsQueue-more m b q ok before) room,
          same,
          put_at-twice s.queues m.key r (r ++ sent_by d ∷ []),
        )
        refl

  -- Two sends of different types to the same queue, with room for both, can change places: whatever is called after them, each call gives
  -- the same reply and leaves the same memory.
  pub sends-swap :
      (s : Driver) (m n : MsgConfig) (b : IsBounded (msgbuf_size - 1) m)
      (d : IsBounded (msgbuf_size - 1) n) (q : List Msgbuf) (calls : List (Kernel × Request))
      → n.key ≡ m.key
      → at s.queues m.key ≡ some q
      → IsQueue q
      → is_full (q ++ sent_by b ∷ []) ≡ false
      → is_full (q ++ sent_by d ∷ []) ≡ false
      → (type_of (sent_by b) == type_of (sent_by d)) ≡ false
      → replies ((k, send m) ∷ (k, send n) ∷ calls) s
        ≡ replies ((k, send n) ∷ (k, send m) ∷ calls) s
  sends-swap s m n b d q calls same found ok room room' differ =
      let h = kmalloc (vmalloc (kmalloc (vmalloc s.heap))) in
      let one = (q ++ sent_by b ∷ []) ++ sent_by d ∷ [] in
      let other = (q ++ sent_by d ∷ []) ++ sent_by b ∷ [] in
      let alike : Alike (holding s m.key one h) (holding s n.key other h) = record {
        contents =
            subst (λ key. AllSame (put_at s.queues m.key one) (put_at s.queues key other))
              (sym same)
              (put_at-AllSame s.queues s.queues m.key one other (AllSame-refl s.queues)
                (SameBoxes-swap q (sent_by b) (sent_by d) differ));
        counters = refl;
        heap = refl;
      } in
      two_sends s m n b d q calls same found ok room
      ∙ ap
          (λ o.
            Option.map (λ rest. (ok_code, []) ∷ rest) (Option.map (λ rest. (ok_code, []) ∷ rest) o))
          (replies-Alike calls (holding s m.key one h) (holding s n.key other h) alike)
      ∙ sym (two_sends s n m d b q calls (sym same) (ap (at s.queues) same ∙ found) ok room')
