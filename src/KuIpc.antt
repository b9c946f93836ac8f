-- ===== src/KuIpc.antt =====
-- assignment1/ku_ipc.c: message queues behind a character device, one `ioctl` handler under a spin
-- lock, so that each call is one step on the state. A result of `none` is a fault: an array index out
-- of range, a read or write past a message buffer, or a null pointer.
pub mod Alike
pub mod App
pub mod ByType
pub mod Mailboxes
pub mod Order
pub mod Replies
pub mod Volume
pub mod Message
pub mod Send
pub mod Invariant
pub mod Receive
pub mod Client
pub mod Commute
pub mod Waiting
mod Tests
pub mod Isolation
pub mod Protocol
pub mod Safety
use mathlib.Core.Option
use embedded_system_software.Base.{
  ltb_ℤ, ℕ, suc, ◌+◌, ◌-◌, ◌%◌, ◌^◌, bit_or, Bool, not, ◌&&◌, ◌||◌, Option, none, some, List, [],
  ◌∷◌, ◌++◌, ltb, leb, ◌==◌, if◌then◌else◌, ◌>>=◌, length, take, drop, replicate, overlay, ℤ, pos,
  negsuc, ok_code, minus_one, minus_two, as_int, at, put_at, has_flag, strlen, little_endian,
  is_negative,
}
use embedded_system_software.Kernel.{Kernel, Heap, no_calls, kmalloc, kfree, vmalloc, vfree}

-- ku_ipc.h
abbrev pub kuipc_maxmsg : ℕ
kuipc_maxmsg = 5

abbrev pub kuipc_maxvol : ℕ
kuipc_maxvol = 100

abbrev pub ku_ipc_creat : ℕ
ku_ipc_creat = 1

abbrev pub ku_ipc_excl : ℕ
ku_ipc_excl = 2

abbrev pub ku_ipc_nowait : ℕ
ku_ipc_nowait = 1

abbrev pub ku_msg_noerror : ℕ
ku_msg_noerror = 2

abbrev pub queue_num : ℕ
queue_num = 10

-- `sizeof(struct msgbuf)` where `long` has 8 bytes.
abbrev pub msgbuf_size : ℕ
msgbuf_size = 136

-- `struct msgbuf` as its bytes: a `long type`, then `char text[128]`.
abbrev pub Msgbuf : Type 0
Msgbuf = List ℕ

abbrev pub type_of : Msgbuf → ℕ
type_of b = little_endian (take 8 b)

abbrev pub text_of : Msgbuf → List ℕ
text_of b = drop 8 b

pub record Qid : Type 0 where
  pub key : ℤ
  pub msgflg : ℕ

-- `msg` is the user memory that the pointer leads to; `msgtyp` is the bit pattern of a `long`.
pub record MsgConfig : Type 0 where
  pub key : ℤ
  pub msg : List ℕ
  pub msgsz : ℤ
  pub msgtyp : ℕ
  pub msgflg : ℕ

-- `msg_queue_head` and `queue_reference_counter`, and the calls of the allocators so far.
pub record Driver : Type 0 where
  pub queues : List (List Msgbuf)
  pub counters : List ℕ
  pub heap : Heap

-- An `int` counter goes round at 2 ^ 32. The decrement runs only on a counter that is not 0.
abbrev pub succ_int : ℕ → ℕ
succ_int n = (n + 1) % 2 ^ 32

count_up : Driver → ℤ → Option (ℤ × Driver)
count_up s key = do
  c ← at s.counters key
  some (key, record s { counters = put_at s.counters key (succ_int c) })

unfoldable pub msgget : Driver → Qid → Option (ℤ × Driver)
unfolding count_up
msgget s q =
    if q.msgflg == bit_or ku_ipc_creat ku_ipc_excl
    then (do c ← at s.counters q.key; if c == 0 then count_up s q.key else some (minus_one, s))
    else if q.msgflg == ku_ipc_creat
    then count_up s q.key
    else some (ok_code, s)

-- The counter is read before the key is tested.
unfoldable pub msgclose : Driver → ℤ → Option (ℤ × Driver)
msgclose s msqid = do
  c ← at s.counters msqid
  if c == 0 || is_negative msqid || not (ltb_ℤ msqid (pos queue_num))
      then some (minus_one, s)
      else some (ok_code, record s { counters = put_at s.counters msqid (c - 1) })

-- The space that one message takes: its type, its text and the terminator.
abbrev pub volume_of : Msgbuf → Option ℕ
volume_of b = Option.map (λ n. 8 + n + 1) (strlen (text_of b))

-- The loop of `ku_ipc_msgsnd`: the messages and the volume of a queue, in `int` arithmetic.
pub tally : List Msgbuf → ℕ → ℕ → Option (ℕ × ℕ)
tally [] num vol = some (num, vol)
tally (b ∷ q) num vol = do v ← volume_of b; tally q (succ_int num) ((vol + v) % 2 ^ 32)

-- `a > b` and `a >= b` between an `int`, as its bit pattern, and a constant that is not negative.
abbrev pub gt_int : ℕ → ℕ → Bool
gt_int a b = ltb b a && ltb a (2 ^ 31)

abbrev pub ge_int : ℕ → ℕ → Bool
ge_int a b = leb b a && ltb a (2 ^ 31)

-- An `int` made a `size_t`.
abbrev pub size_t : ℤ → ℕ
size_t (pos n) = n
size_t (negsuc n) = 2 ^ 64 - 1 - n

-- `memset(kern_buf, '\0', sizeof(struct msgbuf))`.
unfoldable pub zeroed : Msgbuf
zeroed = replicate msgbuf_size 0

-- The message that `copy_from_user` leaves in the zeroed buffer; what it misses stays 0.
abbrev pub copied_in : Kernel → MsgConfig → Msgbuf
copied_in k m = overlay (take (size_t m.msgsz - k.from_user m.msg (size_t m.msgsz)) m.msg) zeroed

-- The branch with room. `copy_from_user` fills all `msgsz` bytes of the target.
pub enqueue : Kernel → Driver → MsgConfig → List Msgbuf → Option (ℤ × Driver)
enqueue k s m q =
    if not (k.vmalloc_ok && k.kmalloc_ok) || ltb msgbuf_size (size_t m.msgsz)
    then none
    else some (
      as_int (k.from_user m.msg (size_t m.msgsz)),
      record s {
        queues = put_at s.queues m.key (q ++ (copied_in k m ∷ []));
        heap = kmalloc (vmalloc s.heap);
      },
    )

-- `sizeof(my_msg->msgsz)`, the size of an `int`, is all that is added for the new message.
unfoldable pub msgsnd : Kernel → Driver → MsgConfig → Option (ℤ × Driver)
unfolding enqueue tally
msgsnd k s m = do
  q ← at s.queues m.key
  (num, vol) ← tally q 0 0
  if gt_int ((vol + 4) % 2 ^ 32) kuipc_maxvol || ge_int num kuipc_maxmsg
      then some (minus_one, s)
      else enqueue k s m q

-- What the loop of `ku_ipc_msgrcv` finds: no message of the type, one that is too long for the
-- caller, or one that it takes, with the queue that is left.
pub data Found : Type 0 where
  absent too_long : Found
  taken : Msgbuf → List Msgbuf → Found

abbrev pub keep : Msgbuf → Found → Found
keep b (taken c rest) = taken c (b ∷ rest)
keep b absent = absent
keep b too_long = too_long

-- `msgsz` is compared as a `size_t`.
abbrev pub offer : MsgConfig → Msgbuf → List Msgbuf → Option Found
offer m b q =
    if has_flag m.msgflg ku_msg_noerror
    then some (taken b q)
    else (do v ← volume_of b; some (if ltb (size_t m.msgsz) v then too_long else taken b q))

pub look_for : MsgConfig → List Msgbuf → Option Found
look_for m [] = some absent
look_for m (b ∷ q) =
    if m.msgtyp == type_of b then offer m b q else Option.map (keep b) (look_for m q)

-- The number of bytes that `copy_to_user` moves.
abbrev pub moved_out : Kernel → MsgConfig → ℕ
moved_out k m = size_t m.msgsz - k.to_user m.msg (size_t m.msgsz)

-- The call's code, the user memory after it, and the state. Bytes past the buffer are no message.
pub deliver : Kernel → Driver → MsgConfig → Found → Option (ℤ × List ℕ × Driver)
deliver k s m absent = some (minus_one, m.msg, s)
deliver k s m too_long = some (minus_two, m.msg, s)
deliver k s m (taken b rest) =
    if ltb msgbuf_size (moved_out k m)
    then none
    else some (
      as_int (k.to_user m.msg (size_t m.msgsz)),
      overlay (take (moved_out k m) b) m.msg,
      record s { queues = put_at s.queues m.key rest; heap = vfree (kfree s.heap) },
    )

unfoldable pub msgrcv : Kernel → Driver → MsgConfig → Option (ℤ × List ℕ × Driver)
unfolding deliver look_for
msgrcv k s m = do q ← at s.queues m.key; found ← look_for m q; deliver k s m found

-- The argument of `ioctl`, read as the command has it.
pub data Request : Type 0 where
  get : Qid → Request
  close : ℕ → Request
  receive : MsgConfig → Request
  send : MsgConfig → Request
  unknown : Request

-- A reply beside the user memory that the call wrote, if any.
abbrev pub no_memory : Option (ℤ × Driver) → Option (ℤ × List ℕ × Driver)
no_memory = Option.map (λ r. (r.0, [], r.1))

unfoldable pub ioctl : Kernel → Driver → Request → Option (ℤ × List ℕ × Driver)
ioctl k s (get q) = no_memory (msgget s q)
ioctl k s (close arg) = no_memory (msgclose s (as_int arg))
ioctl k s (receive m) = msgrcv k s m
ioctl k s (send m) = no_memory (msgsnd k s m)
ioctl k s unknown = some (ok_code, [], s)

-- `ku_ipc_init` and the static initialisers; the argument is what `cdev_add` returns.
unfoldable pub init : ℤ → ℤ × Driver
init added = (
  if is_negative added then minus_one else ok_code,
  record { queues = replicate queue_num []; counters = replicate queue_num 0; heap = no_calls },
)

-- The loops of `ku_ipc_exit`: each entry's buffer and node are released.
free_queue : List Msgbuf → Heap → Heap
free_queue [] h = h
free_queue (b ∷ q) h = free_queue q (kfree (vfree h))

free_queues : List (List Msgbuf) → Heap → Heap
unfolding free_queue
free_queues [] h = h
free_queues (q ∷ qs) h = free_queues qs (free_queue q h)

unfoldable pub exit : Driver → Heap
unfolding free_queues
exit s = free_queues s.queues s.heap
