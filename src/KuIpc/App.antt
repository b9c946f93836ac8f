-- ===== src/KuIpc/App.antt =====
-- assignment1/ku_ipc_app.c: six messages sent and five read, through the library, with nobody else at the queue.
mod Tests
use embedded_system_software.Base.{
  ℕ, zero, suc, ◌+◌, ◌-◌, ◌*◌, ◌/◌, ◌%◌, ◌^◌, ◌≤◌, ◌<◌, bit_and, bit_or, ◌≡◌, refl, sym, ap, subst,
  ◌∙◌, ◌≢◌, ◌↔◌, ◌⊎◌, inl, inr, Bool, true, false, not, ◌&&◌, ◌||◌, Option, none, some, List, [],
  ◌∷◌, ◌++◌, map, arith, ltb, leb, ◌==◌, if◌then◌else◌, ltb→lt, lt→ltb, le→ltb_false, ==_iff,
  ==_refl, Bool-cases, Option-cases, ◌>>=◌, length, get_elem?, get_or, set, total-set, take, drop,
  replicate, overlay, All, total, total-put_at, length-append, length-set, get_elem?-set_self,
  get_elem?-set_ne, get_elem?-lt, get_elem?-none, set-set, lt_of_get_elem?, length-overlay,
  length-take, length-drop, length-replicate, take-overlay, take_all, append-nil, overlay-append,
  append_assoc, All-append, All-get_elem?, All-set, ℤ, pos, negsuc, ltb_ℤ, eqb_ℤ, is_negative,
  ok_code, minus_one, minus_two, as_int, as_int-small, at, put_at, length-put_at, at-put_at_self,
  at-put_at_ne, put_at-put_at, All-put_at, All-at, has_flag, strlen, update, update_self, update_ne,
  IsSome, IsSome-value, update-none, some-ne-none,
}
use mathlib.Core.Option
use embedded_system_software.Kernel.{Kernel}
use embedded_system_software.Libc.{Libc}
use embedded_system_software.MsgList.Programs.{text_of}
use embedded_system_software.KuIpc.{Msgbuf, MsgConfig, ku_ipc_creat, ku_ipc_nowait, ku_msg_noerror}
use embedded_system_software.KuIpc.Client.{
  Process, Waited, returned, waiting, ku_msgget, ku_msgclose, ku_msgsnd, ku_msgrcv,
}

-- `struct msgbuf` with the type 1 and a text.
abbrev pub msg_of : List ℕ → Msgbuf
msg_of text = 1 ∷ (replicate 7 0 ++ overlay text (replicate 128 0))

-- The first texts, each with the length that is passed for it and the flags.
abbrev pub messages : List (List ℕ × ℕ × ℕ)
messages =
    (b'h' ∷ b'e' ∷ b'l' ∷ b'l' ∷ b'o' ∷ [], 14, 0)
    ∷ (b'b' ∷ b'y' ∷ b'e' ∷ b'1' ∷ [], 13, 0)
    ∷ (b'b' ∷ b'y' ∷ b'e' ∷ b'2' ∷ [], 13, 0)
    ∷ (b'b' ∷ b'y' ∷ b'e' ∷ b'3' ∷ [], 13, 0)
    ∷ (b'b' ∷ b'y' ∷ b'e' ∷ b'4' ∷ [], 13, 0)
    ∷ (b'b' ∷ b'y' ∷ b'e' ∷ b'5' ∷ [], 13, ku_ipc_nowait)
    ∷ []

-- How a program ends: it waits for ever, or is done, with what it has printed.
pub data Ending : Type 0 where
  blocked : Process → Ending
  done : List (List ℕ × ℤ) → Process → Ending

abbrev pub with_driver : Process → Waited → Ending
with_driver p (returned ret mem s) = done [] (record p { driver = s })
with_driver p (waiting s) = blocked (record p { driver = s })

abbrev pub and_then : Ending → (Process → Option Ending) → Option Ending
and_then (blocked p) f = some (blocked p)
and_then (done lines p) f = f p

abbrev pub put_line : List ℕ × ℤ → Ending → Ending
put_line l (blocked p) = blocked p
put_line l (done lines p) = done (l ∷ lines) p

module _ (c : Libc) (k : Kernel) (fd : ℤ) where
  unfoldable pub send_all : List (List ℕ × ℕ × ℕ) → Process → Option Ending
  send_all [] p = some (done [] p)
  send_all ((text, size, flags) ∷ ms) p = do
    w ←
        ku_msgsnd c k [] p fd
          (record { key = pos 1; msg = msg_of text; msgsz = pos size; msgtyp = 0; msgflg = flags })
    and_then (with_driver p w) (λ p'. send_all ms p')

  -- The same struct takes every message.
  unfoldable pub read_all : ℕ → Msgbuf → Process → Option Ending
  read_all zero temp p = some (done [] p)
  read_all (suc n) temp p = do
    w ←
        ku_msgrcv c k [] p fd
          (record { key = pos 1; msg = temp; msgsz = pos 14; msgtyp = 1; msgflg = ku_msg_noerror })
    elim w [
      | waiting s ↦ some (blocked (record p { driver = s }))
      | returned sz mem s ↦ do
        text ← text_of (drop 8 mem)
        rest ← read_all n mem (record p { driver = s })
        some (put_line (text, sz) rest)
    ]

  -- `main`
  unfoldable pub app_main : Process → Option Ending
  app_main p = do
    got ← ku_msgget c k p fd (pos 1) ku_ipc_creat
    sent ← send_all messages got.1
    and_then sent (λ p'. do
      read ← read_all 5 (replicate 136 0) p'
      elim read [
        | blocked q ↦ some (blocked q)
        | done lines q ↦ Option.map (λ t. done lines t.1) (ku_msgclose c k q fd (pos 1))
      ])
