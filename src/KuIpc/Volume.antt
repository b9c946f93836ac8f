-- ===== src/KuIpc/Volume.antt =====
-- What the loop of `ku_ipc_msgsnd` computes: the number of messages and their volume, told by plain
-- sums, for queues whose texts are terminated.
use embedded_system_software.Base.{
  ℕ, suc, ◌+◌, ◌*◌, ◌%◌, ◌^◌, ◌≤◌, ◌<◌, ◌≡◌, Bool, true, false, ◌||◌, some, List, [], ◌∷◌, ◌++◌,
  arith, ◌==◌, if◌then◌else◌, length, length-drop, All, strlen,
}
use embedded_system_software.KuIpc.{Msgbuf, text_of, msgbuf_size, volume_of, tally, succ_int}

-- A text with a terminator, and the bytes before it.
abbrev pub has_terminator : List ℕ → Bool
has_terminator [] = false
has_terminator (b ∷ bs) = b == 0 || has_terminator bs

abbrev pub text_length : List ℕ → ℕ
text_length [] = 0
text_length (b ∷ bs) = if b == 0 then 0 else suc (text_length bs)

pub record IsMessage (b : Msgbuf) : Type 0 where
  pub whole : length b ≡ msgbuf_size
  pub closed : has_terminator (text_of b) ≡ true

unfoldable pub volume : List Msgbuf → ℕ
volume [] = 0
volume (b ∷ q) = 9 + text_length (text_of b) + volume q

pub strlen_lem : (bs : List ℕ) → has_terminator bs ≡ true → strlen bs ≡ some (text_length bs)
strlen_lem [] h = cc
strlen_lem (b ∷ bs) h = ground (arith, strlen_lem bs)

pub text_length-lt : (bs : List ℕ) → has_terminator bs ≡ true → text_length bs < length bs
text_length-lt [] h = cc
text_length-lt (b ∷ bs) h = ground (arith, text_length-lt bs)

pub volume_of_lem : (b : Msgbuf) → IsMessage b → volume_of b ≡ some (9 + text_length (text_of b))
volume_of_lem b v = ground (arith, strlen_lem (text_of b) v.closed)

pub text-bound : (b : Msgbuf) → IsMessage b → text_length (text_of b) < 128
text-bound b v = omega (arith, text_length-lt (text_of b) v.closed, length-drop 8 b, v.whole)

pub volume-bound : (q : List Msgbuf) → All IsMessage q → volume q ≤ 136 * length q
unfolding volume
volume-bound [] h = omega arith
volume-bound (b ∷ q) h = omega (arith, volume-bound q h.1, text-bound b h.0)

pub volume-append : (q r : List Msgbuf) → volume (q ++ r) ≡ volume q + volume r
unfolding volume
volume-append [] r = omega arith
volume-append (b ∷ q) r = omega (arith, volume-append q r)

-- No `int` of the loop goes round as long as the sums stay small.
pub tally_lem :
    (q : List Msgbuf) (num vol : ℕ)
    → All IsMessage q
    → num + length q < 2 ^ 32
    → vol + volume q < 2 ^ 32
    → tally q num vol ≡ some (num + length q, vol + volume q)
unfolding tally volume
tally_lem [] num vol h hn hv = ground arith
tally_lem (b ∷ q) num vol h hn hv =
    let v = 9 + text_length (text_of b) in
    rw (volume_of_lem b h.0) (
      ground
        (arith, tally_lem q (succ_int num) ((vol + v) % 2 ^ 32) h.1 (omega arith) (omega arith)))
