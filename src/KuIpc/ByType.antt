-- ===== src/KuIpc/ByType.antt =====
-- A queue of ku_ipc.c as its processes see it: a mailbox for each type of message.
use mathlib.Core.Option
use mathlib.Core.Option.{some-injective}
use embedded_system_software.Base.{
  ℕ, ◌≡◌, refl, sym, ap, subst, ◌∙◌, ◌⊎◌, inl, inr, true, false, Option, none, some, List, [], ◌∷◌,
  ◌++◌, arith, ltb, ◌==◌, if◌then◌else◌, Bool-cases, Option-cases, ◌>>=◌, has_flag, update,
}
use embedded_system_software.KuIpc.{
  Msgbuf, MsgConfig, type_of, Found, absent, too_long, taken, keep, offer, look_for, volume_of,
  size_t, has_flag, ku_msg_noerror,
}

-- What goes on at one queue: a message is added at the end, or a receiver looks for one.
pub data Op : Type 0 where
  put : Msgbuf → Op
  receive_first : MsgConfig → Op

-- What a receiver learns, and the queue after it.
abbrev pub answer : Found → Found
answer absent = absent
answer too_long = too_long
answer (taken b rest) = taken b []

abbrev pub left_by : List Msgbuf → Found → List Msgbuf
left_by q absent = q
left_by q too_long = q
left_by q (taken b rest) = rest

-- The answers of the driver's queue.
unfoldable pub run_queue : List Op → List Msgbuf → Option (List Found)
run_queue [] q = some []
run_queue (put b ∷ ops) q = run_queue ops (q ++ b ∷ [])
run_queue (receive_first m ∷ ops) q =
    look_for m q
    >>= (λ found. Option.map (λ rest. answer found ∷ rest) (run_queue ops (left_by q found)))

-- A mailbox for each type. A message that is added goes to the box of its type, and a receiver gets the first one of the
-- box of the type it asks for, or nothing, or has too little room for it.
abbrev pub first_of : MsgConfig → List Msgbuf → Option Found
first_of m [] = some absent
first_of m (b ∷ box) = offer m b box

unfoldable pub run_boxes : List Op → (ℕ → List Msgbuf) → Option (List Found)
run_boxes [] boxes = some []
run_boxes (put b ∷ ops) boxes =
    run_boxes ops (update boxes (type_of b) (boxes (type_of b) ++ b ∷ []))
run_boxes (receive_first m ∷ ops) boxes = first_of m (boxes m.msgtyp) >>= (λ found.
    Option.map (λ rest. answer found ∷ rest)
      (run_boxes ops (update boxes m.msgtyp (left_by (boxes m.msgtyp) found))))

-- The messages of a type in a queue.
abbrev pub of_type : ℕ → List Msgbuf → List Msgbuf
of_type t [] = []
of_type t (b ∷ q) = if t == type_of b then b ∷ of_type t q else of_type t q

pub of_type-append :
    (t : ℕ) (q : List Msgbuf) (b : Msgbuf)
    → of_type t (q ++ b ∷ []) ≡ (if t == type_of b then of_type t q ++ b ∷ [] else of_type t q)
of_type-append t [] b = ground arith
of_type-append t (c ∷ q) b = ground (arith, of_type-append t q b)

-- What was found, in the box of its type.
abbrev pub in_box : ℕ → Found → Found
in_box t absent = absent
in_box t too_long = too_long
in_box t (taken b rest) = taken b (of_type t rest)

offer-in_box :
    (m : MsgConfig) (b : Msgbuf) (q : List Msgbuf) (t : ℕ)
    → Option.map (in_box t) (offer m b q) ≡ offer m b (of_type t q)
offer-in_box m b q t = elim (Bool-cases (has_flag m.msgflg ku_msg_noerror)) [
  | inl e ↦ rw e refl
  | inr e ↦ elim (Option-cases (volume_of b)) [
    | inl v ↦ rw (e, v) refl
    | inr (n, v) ↦ elim (Bool-cases (ltb (size_t m.msgsz) n)) [
      | inl l ↦ rw (e, v, l) refl
      | inr l ↦ rw (e, v, l) refl
    ]
  ]
]

in_box-keep :
    (t : ℕ) (b : Msgbuf) (o : Option Found)
    → (t == type_of b) ≡ false
    → Option.map (in_box t) (Option.map (keep b) o) ≡ Option.map (in_box t) o
in_box-keep t b none e = refl
in_box-keep t b (some absent) e = refl
in_box-keep t b (some too_long) e = refl
in_box-keep t b (some (taken c rest)) e = rw e refl

pub look_for-first :
    (m : MsgConfig) (q : List Msgbuf)
    → Option.map (in_box m.msgtyp) (look_for m q) ≡ first_of m (of_type m.msgtyp q)
unfolding look_for
look_for-first m [] = refl
look_for-first m (b ∷ q) = elim (Bool-cases (m.msgtyp == type_of b)) [
  | inl e ↦ rw e (offer-in_box m b q m.msgtyp)
  | inr e ↦ rw e (in_box-keep m.msgtyp b (look_for m q) e ∙ look_for-first m q)
]

offer-cases :
    (m : MsgConfig) (b : Msgbuf) (q : List Msgbuf)
    → (offer m b q ≡ none) ⊎ (offer m b q ≡ some too_long) ⊎ (offer m b q ≡ some (taken b q))
offer-cases m b q = elim (Bool-cases (has_flag m.msgflg ku_msg_noerror)) [
  | inl e ↦ rw e (inr (inr refl))
  | inr e ↦ elim (Option-cases (volume_of b)) [
    | inl v ↦ rw (e, v) (inl refl)
    | inr (n, v) ↦ elim (Bool-cases (ltb (size_t m.msgsz) n)) [
      | inl l ↦ rw (e, v, l) (inr (inl refl))
      | inr l ↦ rw (e, v, l) (inr (inr refl))
    ]
  ]
]

-- The box of another type is as it was.
abbrev pub Keeps : ℕ → List Msgbuf → Found → Type 0
Keeps u q found = of_type u (left_by q found) ≡ of_type u q

offer-Keeps :
    (m : MsgConfig) (b : Msgbuf) (q : List Msgbuf) (found : Found) (u : ℕ)
    → offer m b q ≡ some found
    → (u == type_of b) ≡ false
    → Keeps u (b ∷ q) found
offer-Keeps m b q found u e other = elim (offer-cases m b q) [
  | inl n ↦ cc
  | inr (inl l) ↦ subst (Keeps u (b ∷ q)) (some-injective too_long found (sym l ∙ e)) refl
  | inr (inr t) ↦
      subst (Keeps u (b ∷ q)) (some-injective (taken b q) found (sym t ∙ e)) (rw other refl)
]

keep-Keeps :
    (b : Msgbuf) (q : List Msgbuf) (o : Option Found) (found : Found) (u : ℕ)
    → Option.map (keep b) o ≡ some found
    → ((f : Found) → o ≡ some f → Keeps u q f)
    → Keeps u (b ∷ q) found
keep-Keeps b q none found u e h = cc
keep-Keeps b q (some absent) found u e h =
    subst (Keeps u (b ∷ q)) (some-injective absent found e) refl
keep-Keeps b q (some too_long) found u e h =
    subst (Keeps u (b ∷ q)) (some-injective too_long found e) refl
keep-Keeps b q (some (taken c rest)) found u e h =
    subst (Keeps u (b ∷ q)) (some-injective (taken c (b ∷ rest)) found e)
      (ap (λ l. if u == type_of b then b ∷ l else l) (h (taken c rest) refl))

pub look_for-Keeps :
    (m : MsgConfig) (q : List Msgbuf) (found : Found) (u : ℕ)
    → look_for m q ≡ some found
    → (m.msgtyp == u) ≡ false
    → Keeps u q found
unfolding look_for
look_for-Keeps m [] found u e other = subst (Keeps u []) (some-injective absent found e) refl
look_for-Keeps m (b ∷ q) found u e other = elim (Bool-cases (m.msgtyp == type_of b)) [
  | inl same ↦ offer-Keeps m b q found u (rw⁻¹ e (sym (rw same refl))) (ground arith)
  | inr differ ↦
      keep-Keeps b q (look_for m q) found u (rw⁻¹ e (sym (rw differ refl)))
        (λ f k. look_for-Keeps m q f u k other)
]

answer-in_box : (t : ℕ) (found : Found) → answer (in_box t found) ≡ answer found
answer-in_box t absent = refl
answer-in_box t too_long = refl
answer-in_box t (taken b rest) = refl

pub left_by-in_box :
    (t : ℕ) (q : List Msgbuf) (found : Found)
    → left_by (of_type t q) (in_box t found) ≡ of_type t (left_by q found)
left_by-in_box t q absent = refl
left_by-in_box t q too_long = refl
left_by-in_box t q (taken b rest) = refl

-- The boxes hold the messages of the queue, each in the box of its type.
abbrev Sorts : (ℕ → List Msgbuf) → List Msgbuf → Type 0
Sorts boxes q = (t : ℕ) → boxes t ≡ of_type t q

put-Sorts :
    (boxes : ℕ → List Msgbuf) (q : List Msgbuf) (b : Msgbuf)
    → Sorts boxes q
    → Sorts (update boxes (type_of b) (boxes (type_of b) ++ b ∷ [])) (q ++ b ∷ [])
put-Sorts boxes q b h t = elim (Bool-cases (type_of b == t)) [
  | inl e ↦
      let same : type_of b ≡ t = ground arith in
      let back : (t == type_of b) ≡ true = ground arith in
      rw e (
        ap (λ l. l ++ b ∷ []) (h (type_of b) ∙ ap (λ u. of_type u q) same)
        ∙ sym (of_type-append t q b ∙ rw back refl))
  | inr e ↦
      let back : (t == type_of b) ≡ false = ground arith in
      rw e (h t ∙ sym (of_type-append t q b ∙ rw back refl))
]

receive-Sorts :
    (boxes : ℕ → List Msgbuf) (q : List Msgbuf) (m : MsgConfig) (found : Found)
    → look_for m q ≡ some found
    → Sorts boxes q
    → Sorts
        (update boxes m.msgtyp (left_by (boxes m.msgtyp) (in_box m.msgtyp found)))
        (left_by q found)
receive-Sorts boxes q m found e h t = elim (Bool-cases (m.msgtyp == t)) [
  | inl same ↦
      let type : m.msgtyp ≡ t = ground arith in
      rw same (
        ap (λ l. left_by l (in_box m.msgtyp found)) (h m.msgtyp)
        ∙ left_by-in_box m.msgtyp q found
        ∙ ap (λ u. of_type u (left_by q found)) type)
  | inr other ↦ rw other (h t ∙ sym (look_for-Keeps m q found t e other))
]

run-Sorts :
    (ops : List Op) (boxes : ℕ → List Msgbuf) (q : List Msgbuf)
    → Sorts boxes q
    → run_queue ops q ≡ run_boxes ops boxes
unfolding run_queue run_boxes
run-Sorts [] boxes q h = refl
run-Sorts (put b ∷ ops) boxes q h =
    run-Sorts ops (update boxes (type_of b) (boxes (type_of b) ++ b ∷ [])) (q ++ b ∷ [])
      (put-Sorts boxes q b h)
run-Sorts (receive_first m ∷ ops) boxes q h =
    let first : first_of m (boxes m.msgtyp) ≡ Option.map (in_box m.msgtyp) (look_for m q) =
      ap (first_of m) (h m.msgtyp) ∙ sym (look_for-first m q) in
    elim (Option-cases (look_for m q)) [
      | inl e ↦ rw (first, e) refl
      | inr (found, e) ↦
          let boxes' = update boxes m.msgtyp (left_by (boxes m.msgtyp) (in_box m.msgtyp found)) in
          let ih = run-Sorts ops boxes' (left_by q found) (receive-Sorts boxes q m found e h) in
          rw (first, e, answer-in_box m.msgtyp found, ih) refl
    ]

-- Whatever messages are added and asked for at a queue, the receivers learn what they would learn from a mailbox for each
-- type, first in first out and untouched by the messages of other types; the two fault together.
pub run_queue-boxes :
    (ops : List Op) (q : List Msgbuf) → run_queue ops q ≡ run_boxes ops (λ t. of_type t q)
run_queue-boxes ops q = run-Sorts ops (λ t. of_type t q) q (λ t. refl)
