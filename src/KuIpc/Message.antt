-- ===== src/KuIpc/Message.antt =====
-- The message that `ku_ipc_msgsnd` makes of the caller's bytes: it is whole, and terminated as long
-- as the caller leaves the last byte of the buffer.
use embedded_system_software.Base.{
  refl, [], zero, subst, ◌∷◌, suc, arith, ◌∙◌, true, ◌<◌, ◌≤◌, ◌≡◌, ℕ, List, length-overlay,
  length-replicate, length-take, take-overlay, take, drop, replicate, overlay, length,
}
use embedded_system_software.KuIpc.{zeroed, Msgbuf, msgbuf_size}
use embedded_system_software.KuIpc.Volume.{IsMessage, has_terminator}

-- The message that the caller's first `n` bytes make.
abbrev pub message_of : ℕ → List ℕ → Msgbuf
message_of n u = overlay (take n u) zeroed

has_terminator-overlay :
    (src : List ℕ) (n : ℕ) → length src < n → has_terminator (overlay src (replicate n 0)) ≡ true
has_terminator-overlay src zero h = absurd (omega arith)
has_terminator-overlay [] (suc n) h = refl
has_terminator-overlay (x ∷ src) (suc n) h =
    ground (arith, has_terminator-overlay src n (omega arith))

has_terminator-drop :
    (j : ℕ) (src : List ℕ) (n : ℕ)
    → length src < n
    → j < n
    → has_terminator (drop j (overlay src (replicate n 0))) ≡ true
has_terminator-drop zero src n h b = has_terminator-overlay src n h
has_terminator-drop (suc j) src zero h b = absurd (omega arith)
has_terminator-drop (suc j) [] (suc zero) h b = absurd (omega arith)
has_terminator-drop (suc j) [] (suc (suc n)) h b =
    has_terminator-drop j [] (suc n) (omega arith) (omega arith)
has_terminator-drop (suc j) (x ∷ src) (suc n) h b =
    has_terminator-drop j src n (omega arith) (omega arith)

pub length-zeroed : length zeroed ≡ msgbuf_size
unfolding zeroed
length-zeroed = length-replicate {A = ℕ} msgbuf_size 0

pub message_of-IsMessage : (n : ℕ) (u : List ℕ) → n < msgbuf_size → IsMessage (message_of n u)
message_of-IsMessage n u h = record {
  whole = length-overlay (take n u) zeroed ∙ length-zeroed;
  closed =
      unfold zeroed in
      has_terminator-drop 8 (take n u) msgbuf_size (omega (arith, length-take n u)) (omega arith);
}

-- The bytes that went in are the first that come out.
pub take-message_of :
    (n : ℕ) (u : List ℕ) → n ≤ msgbuf_size → n ≤ length u → take n (message_of n u) ≡ take n u
take-message_of n u h there =
    let e : length (take n u) ≡ n = omega (arith, length-take n u) in
    subst (λ j. take j (message_of n u) ≡ take n u) e
      (take-overlay (take n u) zeroed (omega (arith, length-zeroed)))
