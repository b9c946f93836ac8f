-- ===== src/BlockingList/Fifo.antt =====
-- Which messages the readers of the blocking message list get.
use embedded_system_software.Base.{
  ℕ, ◌≤◌, ◌≡◌, refl, sym, ap, ◌∙◌, inl, inr, not, ◌&&◌, Option, none, some, List, [], ◌∷◌, ◌++◌,
  ◌==◌, if◌then◌else◌, Bool-cases, Option-cases, ◌>>=◌, length, take, All, append-nil, append_assoc,
  All-append, is_negative, as_int, strlen,
}
use mathlib.Core.Option.{some-injective}
use embedded_system_software.Kernel.{IsServing, Kernel, Heap}
use embedded_system_software.MsgList.{
  Msg, msg_size, str_of, is_refused, copied_in, copied_out, IsWhole,
}
use embedded_system_software.MsgList.Fifo.{take-copied}
use embedded_system_software.BlockingList.{
  System, Event, Reply, read, write, resume, wake, signal, step, run, ch4_read, ch4_read_rest,
  ch4_write, rise, may_rise,
}
use embedded_system_software.BlockingList.Readers.{
  Inv, IsCalm, IsMapped, AllMapped, length-copied_in, run_calm-Inv,
}

-- The struct that a reader has in its memory when a step ends its call with no error.
abbrev given : Event → Option Reply → List Msg
given e none = []
given (read k user) (some (code, mem)) = if is_negative code then [] else take msg_size mem ∷ []
given (resume k user) (some (code, mem)) = if is_negative code then [] else take msg_size mem ∷ []
given (write k user) (some (code, mem)) = []
given wake (some (code, mem)) = []
given signal (some (code, mem)) = []

-- The message that a writer adds in a step.
abbrev sent : Event → List Msg
sent (read k user) = []
sent (write k user) = if is_refused user then [] else copied_in k user ∷ []
sent (resume k user) = []
sent wake = []
sent signal = []

-- All that writers add, and all that readers get, in their order.
abbrev pub written : List Event → List Msg
written [] = []
written (e ∷ es) = sent e ++ written es

abbrev pub delivered : List Event → System → List Msg
delivered [] s = []
delivered (e ∷ es) s = elim (step e s) [ none ↦ [] | some t ↦ given e t.0 ++ delivered es t.1 ]

abbrev pub messages_of : System → List Msg
messages_of s = s.driver.messages

-- What is in the list and comes in is what goes out and is in the list then, and whole.
abbrev IsOrdered : Event → System → Option (Option Reply × System) → Type 0
IsOrdered e s none = Unit {0}
IsOrdered e s (some t) =
    (s.driver.messages ++ sent e ≡ given e t.0 ++ t.1.driver.messages)
    × All IsWhole t.1.driver.messages

abbrev system : List Msg → ℕ → Heap → ℕ → ℕ → System
system q count h asleep awake = record {
  driver = record { messages = q; msg_count = count; heap = h };
  asleep = asleep;
  awake = awake;
}

rise-keeps : (s : System) → (rise s).driver ≡ s.driver
rise-keeps s = elim (Bool-cases (s.asleep == 0)) [ inl e ↦ rw e refl | inr e ↦ rw e refl ]

write-IsOrdered :
    (k : Kernel) (user : List ℕ) (s : System)
    → All IsWhole s.driver.messages
    → IsOrdered (write k user) s (step (write k user) s)
unfolding step ch4_write
write-IsOrdered k user s whole = elim (Bool-cases (is_refused user)) [
  | inl long ↦ rw (long, long) (append-nil s.driver.messages, whole)
  | inr fits ↦ elim (Bool-cases (not (k.vmalloc_ok && k.kmalloc_ok))) [
    | inl full ↦ rw (fits, full) tt
    | inr room ↦ elim (Option-cases (strlen (str_of (copied_in k user)))) [
      | inl e ↦ rw (fits, room, e) tt
      | inr (n, e) ↦
          rw (fits, room, e, fits)
            (
              refl,
              All-append IsWhole s.driver.messages (copied_in k user ∷ []) whole
                  ((length-copied_in k user, (n, e)), tt),
            )
    ]
  ]
]

wake-IsOrdered : (s : System) → All IsWhole s.driver.messages → IsOrdered wake s (step wake s)
unfolding step
wake-IsOrdered s whole = elim (Bool-cases (may_rise s)) [
  | inl e ↦ rw (e, rise-keeps s) (append-nil s.driver.messages, whole)
  | inr e ↦ rw e (append-nil s.driver.messages, whole)
]

-- The reader that takes a message has it.
taken-IsOrdered :
    (k : Kernel) (b user : List ℕ) (q : List Msg)
    → IsServing k
    → msg_size ≤ length user
    → length b ≡ msg_size
    → (b ∷ q) ++ []
      ≡ (if is_negative (as_int (k.to_user user msg_size))
          then []
          else take msg_size (copied_out k b user) ∷ [])
        ++ q
taken-IsOrdered k b user q serves there full =
    rw (serves.to_all user msg_size there)
      (append-nil (b ∷ q) ∙ ap (λ x. x ∷ q) (sym (take-copied b user full there)))

resume-IsOrdered :
    (k : Kernel) (user : List ℕ) (q : List Msg) (count : ℕ) (h : Heap) (a w : ℕ)
    → IsServing k
    → msg_size ≤ length user
    → All IsWhole q
    → IsOrdered (resume k user) (system q count h a w) (step (resume k user) (system q count h a w))
unfolding step ch4_read_rest
resume-IsOrdered k user [] count h a w serves there whole = elim (Bool-cases (w == 0)) [
  | inl e ↦ rw e (refl, tt)
  | inr e ↦ rw e tt
]
resume-IsOrdered k user (b ∷ q) count h a w serves there whole = elim (Bool-cases (w == 0)) [
  | inl e ↦ rw e (append-nil (b ∷ q), whole)
  | inr e ↦ rw (e, whole.0.1.1) (taken-IsOrdered k b user q serves there whole.0.0, whole.1)
]

step-IsOrdered :
    (e : Event) (q : List Msg) (count : ℕ) (h : Heap) (a w : ℕ)
    → IsMapped e
    → All IsWhole q
    → IsOrdered e (system q count h a w) (step e (system q count h a w))
unfolding step ch4_read
step-IsOrdered (read k user) [] count h a w mapped whole = (refl, tt)
step-IsOrdered (read k user) (b ∷ q) count h a w mapped whole =
    rw whole.0.1.1 (taken-IsOrdered k b user q mapped.0 mapped.1 whole.0.0, whole.1)
step-IsOrdered (write k user) q count h a w mapped whole =
    write-IsOrdered k user (system q count h a w) whole
step-IsOrdered (resume k user) q count h a w mapped whole =
    resume-IsOrdered k user q count h a w mapped.0 mapped.1 whole
step-IsOrdered wake q count h a w mapped whole = wake-IsOrdered (system q count h a w) whole
step-IsOrdered signal q count h a w mapped whole =
    rw (rise-keeps (system q count h a w)) (append-nil q, whole)

ordered_after :
    (e : Event) (es : List Event) (s u : System) (o : Option (Option Reply × System))
    → IsOrdered e s o
    → (o >>= λ t. run es t.1) ≡ some u
    → ((t : System)
        → All IsWhole t.driver.messages
        → run es t ≡ some u
        → messages_of t ++ written es ≡ delivered es t ++ messages_of u)
    → messages_of s ++ (sent e ++ written es)
      ≡ (elim o [ none ↦ [] | some t ↦ given e t.0 ++ delivered es t.1 ]) ++ messages_of u
ordered_after e es s u none order ran rest = cc
ordered_after e es s u (some t) order ran rest =
    sym (append_assoc (messages_of s) (sent e) (written es))
    ∙ ap (λ l. l ++ written es) order.0
    ∙ append_assoc (given e t.0) (messages_of t.1) (written es)
    ∙ ap (λ l. given e t.0 ++ l) (rest t.1 order.1 ran)
    ∙ sym (append_assoc (given e t.0) (delivered es t.1) (messages_of u))

run-ordered :
    (es : List Event) (s u : System)
    → AllMapped es
    → All IsWhole s.driver.messages
    → run es s ≡ some u
    → messages_of s ++ written es ≡ delivered es s ++ messages_of u
unfolding run
run-ordered [] s u mapped whole h =
    append-nil (messages_of s) ∙ ap messages_of (some-injective s u h)
run-ordered (e ∷ es) s u mapped whole h =
    ordered_after e es s u (step e s)
      (step-IsOrdered e s.driver.messages s.driver.msg_count s.driver.heap s.asleep s.awake mapped.0
        whole)
      h λ t w ran. run-ordered es t u mapped.1 w ran

-- While the kernel serves calls by mapped arguments that write terminated texts, no signal comes and a reader that wakes gets the
-- lock before anything else happens, nothing faults, the structs that readers have in their memory after their calls and then the messages in
-- the list are those that were there and those that writers added, in their order, each once, msg_count is the length of the list
-- in 32 bits, and every node and buffer is in the list or released.
pub run_calm-fifo :
    (es : List Event) (s : System)
    → AllMapped es
    → IsCalm es
    → Inv s
    → (t : System) × (run es s ≡ some t)
      × (messages_of s ++ written es ≡ delivered es s ++ messages_of t)
      × Inv t
run_calm-fifo es s mapped calm v =
    let (t, ran, w) = run_calm-Inv es s mapped calm v in
    (t, ran, run-ordered es s t mapped v.whole ran, w)
