-- ===== src/MsgList/Fifo.antt =====
-- Histories of calls of the message list: first in, first out; and what unloading leaves behind.
use embedded_system_software.Base.{
  ℕ, ◌+◌, ◌≤◌, ◌≡◌, refl, sym, ap, ◌∙◌, inl, inr, Option, none, some, List, [], ◌∷◌, ◌++◌, arith,
  if◌then◌else◌, Bool-cases, ◌>>=◌, length, take, replicate, overlay, All, length-append,
  length-overlay, length-replicate, take-overlay, take_all, append-nil, append_assoc, All-append, ℤ,
  is_negative,
}
use mathlib.Core.List.{append-nil, append_assoc}
use embedded_system_software.Kernel.{Kernel, IsServing, Heap, kfree}
use embedded_system_software.MsgList.{
  ch3_read, IsText, IsWhole, Msg, msg_size, is_refused, Driver, Request, read, write, unknown,
  take_message, ch3_write, ch3_ioctl, ch3_init, ch3_exit, free_nodes,
}

-- A message as `ch3_write` makes it of the caller's bytes.
abbrev pub message_of : List ℕ → Msg
message_of user = overlay (take msg_size user) (replicate msg_size 0)

-- The state, and what the calls up to now have accepted and given back, in their order.
pub record Log : Type 0 where
  pub driver : Driver
  pub accepted : List Msg
  pub delivered : List Msg

-- What one call with its reply adds to the two lists: a reader has the struct in its memory when the reply is no error.
abbrev pub noted : Request → ℤ × List ℕ × Driver → Log → Log
noted (read user) (code, mem, t) l = record {
  driver = t;
  accepted = l.accepted;
  delivered = l.delivered ++ (if is_negative code then [] else take msg_size mem ∷ []);
}
noted (write user) (code, mem, t) l = record {
  driver = t;
  accepted = if is_refused user then l.accepted else l.accepted ++ (message_of user ∷ []);
  delivered = l.delivered;
}
noted (unknown user) (code, mem, t) l = record {
  driver = t;
  accepted = l.accepted;
  delivered = l.delivered;
}

unfoldable pub run : List (Kernel × Request) → Log → Option Log
run [] l = some l
run ((k, r) ∷ calls) l = do t ← ch3_ioctl k l.driver r; run calls (noted r t l)

-- The memory that the argument leads to has the size of a message, and what is written is a terminated text.
abbrev pub IsMapped : Request → Type 0
IsMapped (read user) = msg_size ≤ length user
IsMapped (write user) = (msg_size ≤ length user) × IsText (message_of user)
IsMapped (unknown user) = Unit {0}

abbrev pub AllWellFormed : List (Kernel × Request) → Type 0
AllWellFormed [] = Unit {0}
AllWellFormed ((k, r) ∷ calls) = IsServing k × IsMapped r × AllWellFormed calls

pub record Inv (l : Log) : Type 0 where
  pub order : l.accepted ≡ l.delivered ++ l.driver.messages
  pub nodes : l.driver.heap.kmallocs ≡ l.driver.heap.kfrees + length l.driver.messages
  pub buffers : l.driver.heap.vmallocs ≡ l.driver.heap.vfrees + length l.driver.messages
  pub whole : All IsWhole l.driver.messages

abbrev Keeps : Request → Log → Option (ℤ × List ℕ × Driver) → Type 0
Keeps r l none = ⊥
Keeps r l (some t) = Inv (noted r t l)

-- Memory of its size over which a whole message is copied has the message.
pub take-copied :
    (b user : List ℕ)
    → length b ≡ msg_size
    → msg_size ≤ length user
    → take msg_size (overlay (take msg_size b) user) ≡ b
take-copied b user full there =
    ap (λ c. take msg_size (overlay c user)) (ap (λ n. take n b) (sym full) ∙ take_all b)
    ∙ ap (λ n. take n (overlay b user)) (sym full)
    ∙ take-overlay b user (omega (arith, full, there))

length-message_of : (user : List ℕ) → length (message_of user) ≡ msg_size
length-message_of user =
    length-overlay (take msg_size user) (replicate msg_size 0) ∙ length-replicate {A = ℕ} msg_size 0

read-Inv :
    (k : Kernel) (user : List ℕ) (q : List Msg) (h : Heap) (a d : List Msg)
    → IsServing k
    → msg_size ≤ length user
    → Inv (record { driver = record { messages = q; heap = h }; accepted = a; delivered = d })
    → Keeps
        (read user)
        (record { driver = record { messages = q; heap = h }; accepted = a; delivered = d })
        (take_message k user h q)
read-Inv k user [] h a d serves there v = record {
  order = v.order ∙ sym (append-nil (d ++ []));
  nodes = v.nodes;
  buffers = v.buffers;
  whole = tt;
}
read-Inv k user (b ∷ q) h a d serves there v =
    let same = take-copied b user v.whole.0.0 there in
    rw (v.whole.0.1.1) (record {
      order =
          rw (serves.to_all user msg_size there)
            (v.order ∙ sym (append_assoc d (b ∷ []) q) ∙ ap (λ x. (d ++ (x ∷ [])) ++ q) (sym same));
      nodes = omega (arith, v.nodes);
      buffers = omega (arith, v.buffers);
      whole = v.whole.1;
    })

ch3_write-Inv :
    (k : Kernel) (user : List ℕ) (l : Log)
    → IsServing k
    → msg_size ≤ length user
    → IsText (message_of user)
    → Inv l
    → Keeps (write user) l (ch3_ioctl k l.driver (write user))
unfolding ch3_ioctl ch3_write
ch3_write-Inv k user l serves there text v = elim (Bool-cases (is_refused user)) [
  | inl long ↦
      rw long (
        rw long (record { order = v.order; nodes = v.nodes; buffers = v.buffers; whole = v.whole }))
  | inr fits ↦
      rw
        (
          fits,
          serves.vmalloc_serves,
          serves.kmalloc_serves,
          serves.from_all user msg_size there,
          text.1,
        )
        (record {
          order = rw fits (
              ap (λ x. x ++ (message_of user ∷ [])) v.order
              ∙ append_assoc l.delivered l.driver.messages (message_of user ∷ []));
          nodes = omega (arith, v.nodes, length-append l.driver.messages (message_of user ∷ []));
          buffers =
              omega (arith, v.buffers, length-append l.driver.messages (message_of user ∷ []));
          whole =
              All-append IsWhole l.driver.messages (message_of user ∷ []) v.whole
                ((length-message_of user, text), tt);
        })
]

ch3_ioctl-Inv :
    (k : Kernel) (r : Request) (l : Log)
    → IsServing k
    → IsMapped r
    → Inv l
    → Keeps r l (ch3_ioctl k l.driver r)
unfolding ch3_ioctl ch3_read
ch3_ioctl-Inv k (read user) l serves there v =
    read-Inv k user l.driver.messages l.driver.heap l.accepted l.delivered serves there v
ch3_ioctl-Inv k (write user) l serves there v = ch3_write-Inv k user l serves there.0 there.1 v
ch3_ioctl-Inv k (unknown user) l serves there v = record {
  order = v.order;
  nodes = v.nodes;
  buffers = v.buffers;
  whole = v.whole;
}

resume :
    (calls : List (Kernel × Request)) (r : Request) (l : Log) (o : Option (ℤ × List ℕ × Driver))
    → Keeps r l o
    → ((l : Log) → Inv l → (m : Log) × (run calls l ≡ some m) × Inv m)
    → (m : Log) × ((o >>= λ t. run calls (noted r t l)) ≡ some m) × Inv m
resume calls r l none kept rest = absurd kept
resume calls r l (some t) kept rest = rest (noted r t l) kept

-- From a state in good order on, no sequence of calls by mapped arguments that writes terminated texts faults while the kernel
-- serves; the structs that readers have in their memory after a reply that is no error, and then the messages in the list, are the messages
-- accepted, in their order, and every node and buffer is in the list or released.
pub run-fifo :
    (calls : List (Kernel × Request)) (l : Log)
    → AllWellFormed calls
    → Inv l
    → (m : Log) × (run calls l ≡ some m) × Inv m
unfolding run
run-fifo [] l ok v = (l, refl, v)
run-fifo ((k, r) ∷ calls) l ok v =
    resume calls r l (ch3_ioctl k l.driver r) (ch3_ioctl-Inv k r l ok.0 ok.1 v)
      λ m w. run-fifo calls m ok.2 w

abbrev pub loaded : ℤ → Log
loaded added = record { driver = (ch3_init added).1; accepted = []; delivered = [] }

pub loaded-Inv : (added : ℤ) → Inv (loaded added)
unfolding ch3_init
loaded-Inv added = record { order = refl; nodes = refl; buffers = refl; whole = tt }

free_nodes_lem :
    (q : List Msg) (h : Heap) → free_nodes q h ≡ record h { kfrees = h.kfrees + length q }
unfolding free_nodes
free_nodes_lem [] h = ground arith
free_nodes_lem (b ∷ q) h = ground (arith, free_nodes_lem q (kfree h))

-- Unloading a module in good order releases every node, and keeps the buffer of every message still in the list.
ch3_exit-leaks :
    (l : Log)
    → Inv l
    → ((ch3_exit l.driver).kmallocs ≡ (ch3_exit l.driver).kfrees)
      × ((ch3_exit l.driver).vmallocs ≡ (ch3_exit l.driver).vfrees + length l.driver.messages)
unfolding ch3_exit
ch3_exit-leaks l v =
    rw (free_nodes_lem l.driver.messages l.driver.heap) (omega (arith, v.nodes), v.buffers)
