-- ===== src/MsgList.antt =====
-- basic_kernel_functions/challenge3/ch3_mod_201711395.c: one list of messages behind a character device. A call is
-- one step, as in KuIpc; `none` is a fault.
pub mod Fifo
pub mod Programs
mod Tests
use mathlib.Core.Option
use embedded_system_software.Base.{
  little_endian, ℕ, zero, suc, ◌+◌, ◌-◌, ◌*◌, ◌/◌, ◌%◌, ◌^◌, ◌≤◌, ◌<◌, bit_and, bit_or, ◌≡◌, refl,
  sym, ap, subst, ◌∙◌, ◌≢◌, ◌↔◌, ◌⊎◌, inl, inr, Bool, true, false, not, ◌&&◌, ◌||◌, Option, none,
  some, List, [], ◌∷◌, ◌++◌, map, arith, ltb, leb, ◌==◌, if◌then◌else◌, ltb→lt, lt→ltb,
  le→ltb_false, ==_iff, ==_refl, Bool-cases, Option-cases, ◌>>=◌, length, get_elem?, get_or, set,
  total-set, take, drop, replicate, overlay, All, total, total-put_at, length-append, length-set,
  get_elem?-set_self, get_elem?-set_ne, get_elem?-lt, get_elem?-none, set-set, lt_of_get_elem?,
  length-overlay, length-take, length-drop, length-replicate, take-overlay, take_all, append-nil,
  overlay-append, append_assoc, All-append, All-get_elem?, All-set, ℤ, pos, negsuc, ltb_ℤ, eqb_ℤ,
  is_negative, ok_code, minus_one, minus_two, as_int, as_int-small, at, put_at, length-put_at,
  at-put_at_self, at-put_at_ne, put_at-put_at, All-put_at, All-at, has_flag, strlen, update,
  update_self, update_ne, IsSome, IsSome-value, update-none, some-ne-none,
}
use embedded_system_software.Kernel.{Kernel, Heap, no_calls, kmalloc, vmalloc, kfree, vfree}

-- `sizeof(struct msg_st)`: an `int len`, then `char str[128]`.
abbrev pub msg_size : ℕ
msg_size = 132

abbrev pub buf_size : ℕ
buf_size = 128

-- `struct msg_st` as its bytes.
abbrev pub Msg : Type 0
Msg = List ℕ

abbrev pub len_of : List ℕ → ℤ
len_of b = as_int (little_endian (take 4 b))

abbrev pub str_of : Msg → List ℕ
str_of b = drop 4 b

-- What `copy_from_user` leaves in the zeroed buffer.
abbrev pub copied_in : Kernel → List ℕ → Msg
copied_in k user = overlay (take (msg_size - k.from_user user msg_size) user) (replicate msg_size 0)

-- The caller's memory after `copy_to_user` of a message.
abbrev pub copied_out : Kernel → Msg → List ℕ → List ℕ
copied_out k b user = overlay (take (msg_size - k.to_user user msg_size) b) user

-- The test of the length that the writer gives, read where the user has it.
abbrev pub is_refused : List ℕ → Bool
is_refused user = not (ltb_ℤ (len_of user) (pos buf_size))

pub record Driver : Type 0 where
  pub messages : List Msg
  pub heap : Heap

-- What `%s` of `printk` gets past: it reads on without a terminator in `str`.
abbrev pub IsText : Msg → Type 0
IsText b = (n : ℕ) × (strlen (str_of b) ≡ some n)

-- A message as it is in the list: whole, and terminated.
abbrev pub IsWhole : Msg → Type 0
IsWhole b = (length b ≡ msg_size) × IsText b

-- The reply, the user memory after the call, and the state, for a list that reads as given. The text is printed first.
abbrev pub take_message : Kernel → List ℕ → Heap → List Msg → Option (ℤ × List ℕ × Driver)
take_message k user h [] = some (minus_one, user, record { messages = []; heap = h })
take_message k user h (b ∷ q) =
    Option.map
      (λ n. (
        as_int (k.to_user user msg_size),
        copied_out k b user,
        record { messages = q; heap = vfree (kfree h) },
      ))
      (strlen (str_of b))

unfoldable pub ch3_read : Kernel → List ℕ → Driver → Option (ℤ × List ℕ × Driver)
ch3_read k user s = take_message k user s.heap s.messages

-- The text is printed before the message is in the list.
unfoldable pub ch3_write : Kernel → List ℕ → Driver → Option (ℤ × Driver)
ch3_write k user s =
    if is_refused user
    then some (minus_one, s)
    else if not (k.vmalloc_ok && k.kmalloc_ok)
    then none
    else Option.map
        (λ n. (
          as_int (k.from_user user msg_size),
          record {
            messages = s.messages ++ (copied_in k user ∷ []);
            heap = kmalloc (vmalloc s.heap);
          },
        ))
        (strlen (str_of (copied_in k user)))

-- The commands, with the user memory that the argument leads to.
pub data Request : Type 0 where
  read write unknown : List ℕ → Request

unfoldable pub ch3_ioctl : Kernel → Driver → Request → Option (ℤ × List ℕ × Driver)
ch3_ioctl k s (read user) = ch3_read k user s
ch3_ioctl k s (write user) = Option.map (λ t. (t.0, user, t.1)) (ch3_write k user s)
ch3_ioctl k s (unknown user) = some (ok_code, user, s)

-- The lines of the proc file: a number and a text for each message.
unfoldable pub proc_ch3_show : ℕ → List Msg → List (ℕ × List ℕ)
proc_ch3_show i [] = []
proc_ch3_show i (b ∷ q) = (i, str_of b) ∷ proc_ch3_show (i + 1) q

-- The argument is what `cdev_add` returns.
unfoldable pub ch3_init : ℤ → ℤ × Driver
ch3_init added =
    (if is_negative added then minus_one else ok_code, record { messages = []; heap = no_calls })

-- The loop of `ch3_exit` releases the nodes.
unfoldable pub free_nodes : List Msg → Heap → Heap
free_nodes [] h = h
free_nodes (b ∷ q) h = free_nodes q (kfree h)

unfoldable pub ch3_exit : Driver → Heap
ch3_exit s = free_nodes s.messages s.heap
