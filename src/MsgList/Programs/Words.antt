-- ===== src/MsgList/Programs/Words.antt =====
-- What the writers and the readers of the message list print is what they would print over a queue of words.
use embedded_system_software.Base.{
  little_endian, ℕ, zero, suc, ◌≤◌, ◌<◌, ◌≡◌, refl, sym, ap, ◌∙◌, false, some, List, [], ◌∷◌, ◌++◌,
  map, arith, lt→ltb, length, take, replicate, overlay, All, length-overlay, length-replicate,
  take_all, All-append, ℤ, pos, is_negative, as_int, as_int-small, strlen,
}
use mathlib.Core.List.{map-append}
use embedded_system_software.Kernel.{Kernel, IsServing, Heap, kmalloc, vmalloc, kfree, vfree}
use embedded_system_software.Libc.{Libc, IsLibc}
use embedded_system_software.Format.{text_before}
use embedded_system_software.MsgList.{
  len_of, Msg, buf_size, msg_size, str_of, Driver, read, write, ch3_ioctl, ch3_read, ch3_write,
  copied_in, copied_out, is_refused, IsText,
}
use embedded_system_software.MsgList.Programs.{
  typed, text_of, int_bytes, typed_message, Line, prompt, nothing_there, received, writer_main,
  reader_main, Program, writer, reader, run_programs, start,
}

-- The message of a word.
unfoldable pub message : List ℕ → Msg
message w = int_bytes (length (text_before w)) ++ overlay w (replicate buf_size 0)

strlen-zeros :
    (w : List ℕ) (n : ℕ)
    → length w < n
    → strlen (overlay w (replicate n 0)) ≡ some (length (text_before w))
unfolding text_before
strlen-zeros w zero small = absurd (omega arith)
strlen-zeros [] (suc n) small = refl
strlen-zeros (c ∷ w) (suc n) small = ground (arith, strlen-zeros w n)

text_of-zeros :
    (w : List ℕ) (n : ℕ) → length w < n → text_of (overlay w (replicate n 0)) ≡ some (text_before w)
unfolding text_of text_before
text_of-zeros w zero small = absurd (omega arith)
text_of-zeros [] (suc n) small = refl
text_of-zeros (c ∷ w) (suc n) small = ground (arith, text_of-zeros w n)

length-text_before : (w : List ℕ) → length (text_before w) ≤ length w
unfolding text_before
length-text_before [] = omega arith
length-text_before (c ∷ w) = ground (arith, length-text_before w)

-- A source as long as the memory replaces it.
pub overlay_all : (src dst : List ℕ) → length src ≡ length dst → overlay src dst ≡ src
overlay_all [] [] h = refl
overlay_all [] (d ∷ dst) h = absurd (omega arith)
overlay_all (c ∷ src) [] h = absurd (omega arith)
overlay_all (c ∷ src) (d ∷ dst) h = ap (λ t. c ∷ t) (overlay_all src dst (omega arith))

pub typed_message-fits :
    (input : List ℕ)
    → length (typed input) < buf_size
    → typed_message input ≡ some (message (typed input))
unfolding typed_message message
typed_message-fits input small =
    rw (lt→ltb (length (typed input)) buf_size small, strlen-zeros (typed input) buf_size small)
      refl

length-zeros : (w : List ℕ) (n : ℕ) → length (overlay w (replicate n 0)) ≡ n
length-zeros w n = length-overlay w (replicate n 0) ∙ length-replicate n 0

pub length-message : (w : List ℕ) → length (message w) ≡ msg_size
unfolding message
length-message w = omega (arith, length-zeros w buf_size)

len_of-message :
    (w : List ℕ) → length w < buf_size → len_of (message w) ≡ pos (length (text_before w))
unfolding message
len_of-message w small =
    let short = length-text_before w in
    ap as_int {x = little_endian (int_bytes (length (text_before w)))} {y = length (text_before w)}
      (omega arith)
    ∙ as_int-small (length (text_before w)) (omega arith)

pub message-accepted : (w : List ℕ) → length w < buf_size → is_refused (message w) ≡ false
message-accepted w small =
    let short = length-text_before w in rw (len_of-message w small) (ground arith)

pub message-IsText : (w : List ℕ) → length w < buf_size → IsText (message w)
unfolding message
message-IsText w small = (length (text_before w), strlen-zeros w buf_size small)

pub copied_in-all : (k : Kernel) (b : Msg) → IsServing k → length b ≡ msg_size → copied_in k b ≡ b
copied_in-all k b serves full = rw (serves.from_all b msg_size (omega (arith, full))) (
    ap (λ n. overlay (take n b) (replicate msg_size 0)) (sym full)
    ∙ ap (λ c. overlay c (replicate msg_size 0)) (take_all b)
    ∙ overlay_all b (replicate msg_size 0) (full ∙ sym (length-replicate {A = ℕ} msg_size 0)))

pub copied_out-all :
    (k : Kernel) (b user : List ℕ)
    → IsServing k
    → length b ≡ msg_size
    → length user ≡ msg_size
    → copied_out k b user ≡ b
copied_out-all k b user serves full there =
    rw (serves.to_all user msg_size (omega (arith, there)), sym full, take_all b)
      (overlay_all b user (full ∙ sym there))

-- The words that wait, and a driver that holds them.
pub record Holds (ws : List (List ℕ)) (s : Driver) : Type 0 where
  pub texts : s.messages ≡ map message ws
  pub fit : All (λ w. length w < buf_size) ws

-- What the programs print over a queue of words, and the words they leave.
unfoldable pub served : List Program → List (List ℕ) → List Line × List (List ℕ)
served [] ws = ([], ws)
served (writer k dev input ∷ ps) ws =
    let rest = served ps (ws ++ (typed input ∷ [])) in (prompt ∷ rest.0, rest.1)
served (reader k dev user ∷ ps) [] = let rest = served ps [] in (nothing_there ∷ rest.0, rest.1)
served (reader k dev user ∷ ps) (w ∷ ws) =
    let rest = served ps ws in (received (text_before w) ∷ rest.0, rest.1)

-- The kernel serves, the device opens, the words fit, and the reader has a message's memory.
abbrev pub AllFit : List Program → Type 0
AllFit [] = Unit {0}
AllFit (writer k dev input ∷ ps) =
    IsServing k × (is_negative dev ≡ false) × (length (typed input) < buf_size) × AllFit ps
AllFit (reader k dev user ∷ ps) =
    IsServing k × (is_negative dev ≡ false) × (length user ≡ msg_size) × AllFit ps

ch3_ioctl-sent :
    (k : Kernel) (b : Msg) (s : Driver)
    → IsServing k
    → length b ≡ msg_size
    → is_refused b ≡ false
    → IsText b
    → (h : Heap) × (ch3_ioctl k s (write b)
        ≡ some (pos 0, b, record { messages = s.messages ++ (b ∷ []); heap = h }))
unfolding ch3_ioctl ch3_write
ch3_ioctl-sent k b s serves full fits text = (
  kmalloc (vmalloc s.heap),
  rw (fits, serves.vmalloc_serves, serves.kmalloc_serves, copied_in-all k b serves full, text.1)
      (ap
        (λ z. some (
          as_int z,
          b,
          record { messages = s.messages ++ (b ∷ []); heap = kmalloc (vmalloc s.heap) },
        ))
        (serves.from_all b msg_size (omega (arith, full)))),
)

ch3_ioctl-taken :
    (k : Kernel) (b user : List ℕ) (q : List Msg) (s : Driver)
    → IsServing k
    → length b ≡ msg_size
    → length user ≡ msg_size
    → s.messages ≡ b ∷ q
    → IsText b
    → (h : Heap) × (ch3_ioctl k s (read user) ≡ some (pos 0, b, record { messages = q; heap = h }))
unfolding ch3_ioctl ch3_read
ch3_ioctl-taken k b user q s serves full there first text = (
  vfree (kfree s.heap),
  rw (first, copied_out-all k b user serves full there, text.1)
      (ap (λ z. some (as_int z, b, record { messages = q; heap = vfree (kfree s.heap) }))
        (serves.to_all user msg_size (omega (arith, there)))),
)

writer_main-Holds :
    (c : Libc) (k : Kernel) (dev : ℤ) (input : List ℕ) (ws : List (List ℕ)) (s : Driver)
    → IsLibc c
    → IsServing k
    → is_negative dev ≡ false
    → length (typed input) < buf_size
    → Holds ws s
    → (t : Driver) × (writer_main c k dev input s ≡ some (prompt ∷ [], t))
      × Holds (ws ++ (typed input ∷ [])) t
unfolding writer_main
writer_main-Holds c k dev input ws s libc serves opened small v =
    let b = message (typed input) in
    let (h, sent) =
      ch3_ioctl-sent k b s serves (length-message (typed input))
        (message-accepted (typed input) small) (message-IsText (typed input) small) in
    rw (typed_message-fits input small, opened, sent, libc.passes 0)
      (
        _,
        refl,
        record {
          texts = ap (λ q. q ++ (b ∷ [])) v.texts ∙ sym (map-append message ws (typed input ∷ []));
          fit = All-append (λ w. length w < buf_size) ws (typed input ∷ []) v.fit (small, tt);
        },
      )

pub text_of-message :
    (w : List ℕ) → length w < buf_size → text_of (str_of (message w)) ≡ some (text_before w)
unfolding message
text_of-message w small = text_of-zeros w buf_size small

reader_main-Holds :
    (c : Libc) (k : Kernel) (dev : ℤ) (user : List ℕ) (w : List ℕ) (ws : List (List ℕ)) (s : Driver)
    → IsLibc c
    → IsServing k
    → is_negative dev ≡ false
    → length user ≡ msg_size
    → Holds (w ∷ ws) s
    → (t : Driver) × (reader_main c k dev user s ≡ some (received (text_before w) ∷ [], t))
      × Holds ws t
unfolding reader_main
reader_main-Holds c k dev user w ws s libc serves opened there v =
    let (h, taken) =
      ch3_ioctl-taken k (message w) user (map message ws) s serves (length-message w) there v.texts
        (message-IsText w v.fit.0) in
    rw (opened, taken, libc.passes 0, text_of-message w v.fit.0)
      (_, refl, record { texts = refl; fit = v.fit.1 })

reader_main-nothing :
    (c : Libc) (k : Kernel) (dev : ℤ) (user : List ℕ) (s : Driver)
    → IsLibc c
    → is_negative dev ≡ false
    → Holds [] s
    → (t : Driver) × (reader_main c k dev user s ≡ some (nothing_there ∷ [], t)) × Holds [] t
unfolding reader_main ch3_ioctl ch3_read
reader_main-nothing c k dev user s libc opened v =
    rw (opened, v.texts, libc.fails 0 (omega arith)) (_, refl, record { texts = refl; fit = tt })

-- The run that follows a program's own lines.
follow :
    (c : Libc) (p : Program) (ps : List Program) (s : Driver) (out rest : List Line)
    (ws ws' : List (List ℕ))
    → ((t : Driver) × (start c p s ≡ some (out, t)) × Holds ws t)
    → ((t : Driver)
        → Holds ws t
        → (u : Driver) × (run_programs c ps t ≡ some (rest, u)) × Holds ws' u)
    → (u : Driver) × (run_programs c (p ∷ ps) s ≡ some (out ++ rest, u)) × Holds ws' u
unfolding run_programs
follow c p ps s out rest ws ws' (t, same, v) later =
    let (u, after, w) = later t v in (u, rw (same, after) refl, w)

-- Whatever writers and readers are started one after the other, when the device opens, the kernel serves and each word
-- typed is shorter than the buffer, they all end, they print what they would print over a queue of words, and the messages left are those words.
pub run_programs-served :
    (c : Libc) (ps : List Program) (ws : List (List ℕ)) (s : Driver)
    → IsLibc c
    → AllFit ps
    → Holds ws s
    → (t : Driver) × (run_programs c ps s ≡ some ((served ps ws).0, t)) × Holds (served ps ws).1 t
unfolding served run_programs
run_programs-served c [] ws s libc ok v = (s, refl, v)
run_programs-served c (writer k dev input ∷ ps) ws s libc ok v =
    follow c (writer k dev input) ps s (prompt ∷ []) (served ps (ws ++ (typed input ∷ []))).0
      (ws ++ (typed input ∷ [])) (served ps (ws ++ (typed input ∷ []))).1
      (writer_main-Holds c k dev input ws s libc ok.0 ok.1 ok.2 v)
      λ t x. run_programs-served c ps (ws ++ (typed input ∷ [])) t libc ok.3 x
run_programs-served c (reader k dev user ∷ ps) [] s libc ok v =
    follow c (reader k dev user) ps s (nothing_there ∷ []) (served ps []).0 [] (served ps []).1
      (reader_main-nothing c k dev user s libc ok.1 v)
      λ t x. run_programs-served c ps [] t libc ok.3 x
run_programs-served c (reader k dev user ∷ ps) (w ∷ ws) s libc ok v =
    follow c (reader k dev user) ps s (received (text_before w) ∷ []) (served ps ws).0 ws
      (served ps ws).1 (reader_main-Holds c k dev user w ws s libc ok.0 ok.1 ok.2 v)
      λ t x. run_programs-served c ps ws t libc ok.3 x
