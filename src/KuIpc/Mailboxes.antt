-- ===== src/KuIpc/Mailboxes.antt =====
-- The contents of a queue of ku_ipc.c, with the order between messages of different types forgotten.
mod Tests
use embedded_system_software.Base.{
  ℕ, zero, suc, ◌+◌, ◌≤◌, ◌≡◌, refl, sym, ap, ◌∙◌, ◌↔◌, false, some, List, [], ◌∷◌, ◌++◌, arith,
  ◌==◌, length, replicate, pos, update_self,
}
use mathlib.Core.Option
use mathlib.Core.Option.{some-injective}
use mathlib.Core.Quot
use mathlib.Core.Quot.{Quot, Quot-set}
use embedded_system_software.KuIpc.{
  Msgbuf, MsgConfig, type_of, Found, absent, too_long, taken, ku_msg_noerror,
}
use embedded_system_software.KuIpc.ByType.{
  Op, receive_first, run_queue, run_boxes, run_queue-boxes, of_type, of_type-append,
}

-- The same messages of each type, in the same order.
abbrev pub SameBoxes : List Msgbuf → List Msgbuf → Type 0
SameBoxes q p = (t : ℕ) → of_type t q ≡ of_type t p

abbrev pub Contents : Type 0
Contents = Quot SameBoxes

-- The mailbox of a type in the contents.
unfoldable pub box : ℕ → Contents → List Msgbuf
box t = Quot.lift (hlevel) (of_type t) (λ q p h. h t)

-- A receiver of a type that takes messages of any length.
abbrev taker : ℕ → MsgConfig
taker t = record { key = pos 0; msg = []; msgsz = pos 0; msgtyp = t; msgflg = ku_msg_noerror }

-- What as many receivers in a row learn.
abbrev emptied : ℕ → List Msgbuf → List Found
emptied zero box = []
emptied (suc n) [] = absent ∷ emptied n []
emptied (suc n) (b ∷ box) = taken b [] ∷ emptied n box

run_boxes-emptied :
    (n t : ℕ) (boxes : ℕ → List Msgbuf) (box : List Msgbuf)
    → boxes t ≡ box
    → run_boxes (replicate n (receive_first (taker t))) boxes ≡ some (emptied n box)
unfolding run_boxes
run_boxes-emptied zero t boxes box h = refl
run_boxes-emptied (suc n) t boxes [] h =
    rw h (ap (Option.map _) (run_boxes-emptied n t _ [] (update_self boxes t [])))
run_boxes-emptied (suc n) t boxes (b ∷ box) h =
    rw h (ap (Option.map _) (run_boxes-emptied n t _ box (update_self boxes t box)))

abbrev head_of : Found → Msgbuf
head_of absent = []
head_of too_long = []
head_of (taken b rest) = b

abbrev first_answer : List Found → Found
first_answer [] = absent
first_answer (f ∷ fs) = f

abbrev later_answers : List Found → List Found
later_answers [] = []
later_answers (f ∷ fs) = fs

emptied-injective :
    (n : ℕ) (xs ys : List Msgbuf)
    → length xs ≤ n
    → length ys ≤ n
    → emptied n xs ≡ emptied n ys
    → xs ≡ ys
emptied-injective n [] [] hx hy e = refl
emptied-injective zero (x ∷ xs) ys hx hy e = absurd (omega arith)
emptied-injective zero [] (y ∷ ys) hx hy e = absurd (omega arith)
emptied-injective (suc n) [] (y ∷ ys) hx hy e = cc
emptied-injective (suc n) (x ∷ xs) [] hx hy e = cc
emptied-injective (suc n) (x ∷ xs) (y ∷ ys) hx hy e =
    let same = ap (λ l. head_of (first_answer l)) e in
    let rest = emptied-injective n xs ys (omega arith) (omega arith) (ap later_answers e) in
    ap (λ b. b ∷ xs) same ∙ ap (λ l. y ∷ l) rest

run_queue-emptied :
    (n t : ℕ) (q : List Msgbuf)
    → run_queue (replicate n (receive_first (taker t))) q ≡ some (emptied n (of_type t q))
run_queue-emptied n t q =
    run_queue-boxes (replicate n (receive_first (taker t))) q
    ∙ run_boxes-emptied n t (λ u. of_type u q) (of_type t q) refl

-- Receivers that learn the same at both queues, whatever they do, have the same mailboxes.
observed-SameBoxes :
    (q p : List Msgbuf) → ((ops : List Op) → run_queue ops q ≡ run_queue ops p) → SameBoxes q p
observed-SameBoxes q p h t =
    let n = length (of_type t q) + length (of_type t p) in
    let same =
      sym (run_queue-emptied n t q)
      ∙ h (replicate n (receive_first (taker t)))
      ∙ run_queue-emptied n t p in
    emptied-injective n (of_type t q) (of_type t p) (omega arith) (omega arith)
      (some-injective (emptied n (of_type t q)) (emptied n (of_type t p)) same)

SameBoxes-observed :
    (q p : List Msgbuf) → SameBoxes q p → (ops : List Op) → run_queue ops q ≡ run_queue ops p
SameBoxes-observed q p h ops =
    run_queue-boxes ops q ∙ ap (run_boxes ops) (λ i t. h t i) ∙ sym (run_queue-boxes ops p)

-- Two queues have the same contents, with the order between messages of different types forgotten, exactly when whatever
-- messages are added and asked for from then on, the receivers learn the same.
pub contents-observed :
    (q p : List Msgbuf)
    → (Path Contents (Quot.mk q) (Quot.mk p))
      ↔ ((ops : List Op) → run_queue ops q ≡ run_queue ops p)
unfolding box
contents-observed q p = (
  λ same. SameBoxes-observed q p (λ t. ap (box t) same),
  λ h. Quot.sound (observed-SameBoxes q p h),
)

-- Sends of different types can change places.
sends-commute :
    (q : List Msgbuf) (a b : Msgbuf)
    → (type_of a == type_of b) ≡ false
    → Path Contents (Quot.mk ((q ++ a ∷ []) ++ b ∷ [])) (Quot.mk ((q ++ b ∷ []) ++ a ∷ []))
sends-commute q a b differ = Quot.sound (λ t. grind (arith, of_type-append))
