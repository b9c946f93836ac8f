-- ===== src/BlockingList/Readers.antt =====
-- Readers that sleep: what they may rely on while one is woken at a time, and what happens when two are.
use embedded_system_software.Base.{
  ℕ, ◌+◌, ◌-◌, ◌%◌, ◌^◌, ◌≤◌, ◌≡◌, refl, ◌∙◌, inl, inr, Option, none, some, List, [], ◌∷◌, arith,
  Bool-cases, ◌>>=◌, length, take, replicate, All, length-append, length-overlay, length-replicate,
  All-append, ℤ,
}
use embedded_system_software.Kernel.{Kernel, IsServing, Heap, kfree, vfree}
use embedded_system_software.MsgList.{Msg, msg_size, is_refused, copied_in, IsText, IsWhole}
use embedded_system_software.BlockingList.{
  System, Event, Reply, read, write, resume, wake, signal, step, run, ch4_read, ch4_read_rest,
  ch4_write, ch4_init, ch4_exit, free_messages,
}

pub record Inv (s : System) : Type 0 where
  pub counted : s.driver.msg_count ≡ length s.driver.messages % 2 ^ 32
  pub nodes : s.driver.heap.kmallocs ≡ s.driver.heap.kfrees + length s.driver.messages
  pub buffers : s.driver.heap.vmallocs ≡ s.driver.heap.vfrees + length s.driver.messages
  pub none_awake : s.awake ≡ 0
  pub whole : All IsWhole s.driver.messages

-- The kernel serves a call, its memory has the size of a message, and what is written is a terminated text.
abbrev pub IsMapped : Event → Type 0
IsMapped (read k user) = IsServing k × (msg_size ≤ length user)
IsMapped (write k user) = IsServing k × (msg_size ≤ length user) × IsText (copied_in k user)
IsMapped (resume k user) = IsServing k × (msg_size ≤ length user)
IsMapped wake = Unit {0}
IsMapped signal = Unit {0}

abbrev pub AllMapped : List Event → Type 0
AllMapped [] = Unit {0}
AllMapped (e ∷ es) = IsMapped e × AllMapped es

-- No signal comes, and a reader that wakes has the lock before anything else happens.
abbrev pub IsCalm : List Event → Type 0
IsCalm [] = Unit {0}
IsCalm (read k user ∷ es) = IsCalm es
IsCalm (write k user ∷ es) = IsCalm es
IsCalm (resume k user ∷ es) = ⊥
IsCalm (signal ∷ es) = ⊥
IsCalm (wake ∷ []) = ⊥
IsCalm (wake ∷ resume k user ∷ es) = IsCalm es
IsCalm (wake ∷ read k user ∷ es) = ⊥
IsCalm (wake ∷ write k user ∷ es) = ⊥
IsCalm (wake ∷ wake ∷ es) = ⊥
IsCalm (wake ∷ signal ∷ es) = ⊥

abbrev Keeps : Option (Option Reply × System) → Type 0
Keeps none = ⊥
Keeps (some t) = Inv t.1

abbrev pub system : List Msg → ℕ → Heap → ℕ → ℕ → System
system q count h asleep awake = record {
  driver = record { messages = q; msg_count = count; heap = h };
  asleep = asleep;
  awake = awake;
}

read-Inv :
    (k : Kernel) (user : List ℕ) (q : List Msg) (count : ℕ) (h : Heap) (a w : ℕ)
    → Inv (system q count h a w)
    → Keeps (ch4_read k user (system q count h a w))
unfolding ch4_read
read-Inv k user [] count h a w v = record {
  counted = v.counted;
  nodes = v.nodes;
  buffers = v.buffers;
  none_awake = v.none_awake;
  whole = v.whole;
}
read-Inv k user (b ∷ q) count h a w v = rw v.whole.0.1.1 (record {
  counted = omega (arith, v.counted);
  nodes = omega (arith, v.nodes);
  buffers = omega (arith, v.buffers);
  none_awake = v.none_awake;
  whole = v.whole.1;
})

-- What is copied in fills a message.
pub length-copied_in : (k : Kernel) (user : List ℕ) → length (copied_in k user) ≡ msg_size
length-copied_in k user =
    length-overlay (take (msg_size - k.from_user user msg_size) user) (replicate msg_size 0)
    ∙ length-replicate {A = ℕ} msg_size 0

write-Inv :
    (k : Kernel) (user : List ℕ) (s : System)
    → IsMapped (write k user)
    → Inv s
    → Keeps (step (write k user) s)
unfolding step ch4_write
write-Inv k user s mapped v = elim (Bool-cases (is_refused user)) [
  | inl long ↦ rw long v
  | inr fits ↦
      rw (fits, mapped.0.vmalloc_serves, mapped.0.kmalloc_serves, mapped.2.1)
        (record {
          counted =
              omega (arith, v.counted, length-append s.driver.messages (copied_in k user ∷ []));
          nodes = omega (arith, v.nodes, length-append s.driver.messages (copied_in k user ∷ []));
          buffers =
              omega (arith, v.buffers, length-append s.driver.messages (copied_in k user ∷ []));
          none_awake = v.none_awake;
          whole =
              All-append IsWhole s.driver.messages (copied_in k user ∷ []) v.whole
                ((length-copied_in k user, mapped.2), tt);
        })
]

-- A reader that wakes alone finds a message: the counter is not above the length of the list.
wake-Inv :
    (k : Kernel) (user : List ℕ) (q : List Msg) (count : ℕ) (h : Heap) (a w : ℕ)
    → Inv (system q count h a w)
    → Keeps (step wake (system q count h a w) >>= λ t. step (resume k user) t.1)
unfolding step ch4_read_rest
wake-Inv k user [] count h a w v = ground (arith, v.counted, v.none_awake)
wake-Inv k user (b ∷ q) count h a w v =
    ground (arith, v.counted, v.none_awake, v.nodes, v.buffers, v.whole.1, v.whole.0.1.1)

continue :
    (es : List Event) (o : Option (Option Reply × System))
    → Keeps o
    → ((s : System) → Inv s → (t : System) × (run es s ≡ some t) × Inv t)
    → (t : System) × ((o >>= λ t. run es t.1) ≡ some t) × Inv t
continue es none kept rest = absurd kept
continue es (some t) kept rest = rest t.1 kept

continue_after :
    (es : List Event) (e : Event) (o : Option (Option Reply × System))
    → Keeps (o >>= λ t. step e t.1)
    → ((s : System) → Inv s → (t : System) × (run es s ≡ some t) × Inv t)
    → (t : System) × ((o >>= λ t. step e t.1 >>= λ u. run es u.1) ≡ some t) × Inv t
continue_after es e none kept rest = absurd kept
continue_after es e (some t) kept rest = continue es (step e t.1) kept rest

-- While the kernel serves calls by mapped arguments, no signal comes and a reader that wakes gets the lock before anything else happens, no read
-- and no write faults; `msg_count` is the length of the list, and every node and buffer is in the list or released.
pub run_calm-Inv :
    (es : List Event) (s : System)
    → AllMapped es
    → IsCalm es
    → Inv s
    → (t : System) × (run es s ≡ some t) × Inv t
unfolding run
run_calm-Inv [] s mapped calm v = (s, refl, v)
run_calm-Inv (read k user ∷ es) s mapped calm v =
    continue es (step (read k user) s)
      (unfold step in
        read-Inv k user s.driver.messages s.driver.msg_count s.driver.heap s.asleep s.awake v)
      λ t w. run_calm-Inv es t mapped.1 calm w
run_calm-Inv (write k user ∷ es) s mapped calm v =
    continue es (step (write k user) s) (write-Inv k user s mapped.0 v)
      λ t w. run_calm-Inv es t mapped.1 calm w
run_calm-Inv (resume k user ∷ es) s mapped calm v = absurd calm
run_calm-Inv (signal ∷ es) s mapped calm v = absurd calm
run_calm-Inv (wake ∷ []) s mapped calm v = absurd calm
run_calm-Inv (wake ∷ resume k user ∷ es) s mapped calm v =
    continue_after es (resume k user) (step wake s)
      (wake-Inv k user s.driver.messages s.driver.msg_count s.driver.heap s.asleep s.awake v)
      λ t w. run_calm-Inv es t mapped.1.1 calm w
run_calm-Inv (wake ∷ read k user ∷ es) s mapped calm v = absurd calm
run_calm-Inv (wake ∷ write k user ∷ es) s mapped calm v = absurd calm
run_calm-Inv (wake ∷ wake ∷ es) s mapped calm v = absurd calm
run_calm-Inv (wake ∷ signal ∷ es) s mapped calm v = absurd calm

-- One message and two sleepers that both wake before the first of them has the lock: the second takes a message from an
-- empty list and faults, whatever the message and the buffers.
two_readers_fault :
    (k k' : Kernel) (user user' : List ℕ) (b : Msg) (h : Heap) (a : ℕ)
    → run (wake ∷ wake ∷ resume k user ∷ resume k' user' ∷ []) (system (b ∷ []) 1 h (a + 2) 0)
      ≡ none
unfolding run step ch4_read_rest
two_readers_fault k k' user user' b h a = ground arith

-- A reader that a signal wakes from the empty list it sleeps for goes on all the same, and faults.
signal_fault :
    (k k' : Kernel) (user user' : List ℕ) (count a : ℕ) (h : Heap)
    → run (read k user ∷ signal ∷ resume k' user' ∷ []) (system [] count h a 0) ≡ none
unfolding run step ch4_read ch4_read_rest
signal_fault k k' user user' count a h = ground arith

free_messages_lem :
    (q : List Msg) (h : Heap)
    → free_messages q h ≡ record h { kfrees = h.kfrees + length q; vfrees = h.vfrees + length q }
unfolding free_messages
free_messages_lem [] h = ground arith
free_messages_lem (b ∷ q) h = ground (arith, free_messages_lem q (vfree (kfree h)))

-- Unloading a module in good order releases every node and every buffer.
ch4_exit-frees :
    (s : System)
    → Inv s
    → ((ch4_exit s.driver).kmallocs ≡ (ch4_exit s.driver).kfrees)
      × ((ch4_exit s.driver).vmallocs ≡ (ch4_exit s.driver).vfrees)
unfolding ch4_exit
ch4_exit-frees s v = rw (free_messages_lem s.driver.messages s.driver.heap) (v.nodes, v.buffers)

abbrev pub loaded : ℤ → System
loaded added = record { driver = (ch4_init added).1; asleep = 0; awake = 0 }

pub loaded-Inv : (added : ℤ) → Inv (loaded added)
unfolding ch4_init
loaded-Inv added = record {
  counted = refl;
  nodes = refl;
  buffers = refl;
  none_awake = refl;
  whole = tt;
}
