-- ===== src/Coffer/Live.antt =====
-- The coffer and its driver together: the application reads the queues of switch.c through switch_lib.c, and what it
-- reads comes from presses and echoes.
use embedded_system_software.Base.{
  ℕ, zero, suc, ◌%◌, ◌^◌, ◌<◌, ◌≡◌, refl, ◌∙◌, Bool, true, false, not, ◌&&◌, Option, some, List, [],
  ◌∷◌, arith, ◌==◌, if◌then◌else◌, ◌>>=◌, get_elem?, All, get_elem?-set_self, lt_of_get_elem?, ℤ,
  pos, negsuc, ltb_ℤ, eqb_ℤ, is_negative, minus_one, as_int,
}
use embedded_system_software.Libc.{Libc, IsLibc}
use embedded_system_software.Switch.{
  Driver, Sample, switch_ioctl, recv_switch, recv_ultrasonic, take_switch, take_ultrasonic,
}
use embedded_system_software.Switch
use embedded_system_software.Coffer.{Reply, my_password, is_far, round}
use embedded_system_software.Coffer.Password.{begins_with, opens, round-opens}
use embedded_system_software.Coffer.Devices.{
  Files, switch_recv, ultrasonic_recv, switch_call, after_open, after_close,
}

-- The two calls that each round of the application's loops makes, with the descriptors that `open` returns.
unfoldable pub poll : Libc → ℤ × ℤ → ℤ → Driver → Files → Option (Reply × Driver × Files)
poll c (fd, fd') key s f = do
  (ret, s', f') ← switch_recv c fd key s f
  (distance, s'', f'') ← ultrasonic_recv c fd' key s' f'
  some (record { ret = ret; distance = distance }, s'', f'')

-- The replies of a number of rounds in which nothing else happens.
unfoldable pub polls : Libc → ℤ × ℤ → ℤ → ℕ → Driver → Files → Option (List Reply × Driver × Files)
polls c fds key zero s f = some ([], s, f)
polls c fds key (suc n) s f = do
  (r, s', f') ← poll c fds key s f
  (rs, s'', f'') ← polls c fds key n s' f'
  some (r ∷ rs, s'', f'')

-- The value at the head of a queue, or -1.
abbrev pub head_value : List Sample → ℤ
head_value [] = minus_one
head_value (d ∷ q) = d.value

abbrev pub tail : List Sample → List Sample
tail [] = []
tail (d ∷ q) = q

-- What the rounds read of a queue of presses and one of distances.
abbrev pub replies_of : ℕ → List Sample → List Sample → List Reply
replies_of zero ps ds = []
replies_of (suc n) ps ds =
    record { ret = head_value ps; distance = head_value ds } ∷ replies_of n (tail ps) (tail ds)

-- Samples that libc passes on unchanged: no value is negative.
abbrev pub IsPlain : Sample → Type 0
IsPlain d = is_negative d.value ≡ false

result-plain : (c : Libc) → IsLibc c → (z : ℤ) → is_negative z ≡ false → c.result z ≡ z
result-plain c libc (pos n) h = libc.passes n
result-plain c libc (negsuc n) h = cc

head-result :
    (c : Libc)
    → IsLibc c
    → (q : List Sample) → All IsPlain q
    → c.result (head_value q) ≡ head_value q
head-result c libc [] h = libc.fails 0 (omega arith)
head-result c libc (d ∷ q) h = result-plain c libc d.value h.0

-- The queues of one process, and that nothing in them is negative.
pub record Holds (i : ℕ) (ps ds : List Sample) (s : Driver) : Type 0 where
  pub presses : get_elem? s.switch_queues i ≡ some ps
  pub distances : get_elem? s.ultrasonic_queues i ≡ some ds
  pub plain : All IsPlain ps
  pub plain_distances : All IsPlain ds

take_switch-Holds :
    (i : ℕ) (ps ds : List Sample) (s : Driver)
    → Holds i ps ds s
    → ((take_switch s (pos i) ps).0 ≡ head_value ps)
      × Holds i (tail ps) ds (take_switch s (pos i) ps).1
take_switch-Holds i [] ds s h = (refl, h)
take_switch-Holds i (p ∷ ps) ds s h = (
  refl,
  record {
    presses =
        get_elem?-set_self s.switch_queues i ps
          (lt_of_get_elem? s.switch_queues i (p ∷ ps) h.presses);
    distances = h.distances;
    plain = h.plain.1;
    plain_distances = h.plain_distances;
  },
)

take_ultrasonic-Holds :
    (i : ℕ) (ps ds : List Sample) (s : Driver)
    → Holds i ps ds s
    → ((take_ultrasonic s (pos i) ds).0 ≡ head_value ds)
      × Holds i ps (tail ds) (take_ultrasonic s (pos i) ds).1
take_ultrasonic-Holds i ps [] s h = (refl, h)
take_ultrasonic-Holds i ps (d ∷ ds) s h = (
  refl,
  record {
    presses = h.presses;
    distances =
        get_elem?-set_self s.ultrasonic_queues i ds
          (lt_of_get_elem? s.ultrasonic_queues i (d ∷ ds) h.distances);
    plain = h.plain;
    plain_distances = h.plain_distances.1;
  },
)

module _ (c : Libc) (libc : IsLibc c) (fd fd' : ℤ) (o : is_negative fd ≡ false)
    (o' : is_negative fd' ≡ false) (i : ℕ) (small : i < 2 ^ 31) where
  poll-Holds :
      (ps ds : List Sample) (s : Driver) (f : Files)
      → Holds i ps ds s
      → (t : Driver) × (g : Files) × (poll c (fd, fd') (pos i) s f
          ≡ some (record { ret = head_value ps; distance = head_value ds }, t, g))
        × Holds i (tail ps) (tail ds) t
  unfolding poll switch_recv ultrasonic_recv switch_call switch_ioctl Switch.switch_recv
      Switch.ultrasonic_recv
  poll-Holds ps ds s f h =
      let (v, k) = take_switch-Holds i ps ds s h in
      let (v', k') = take_ultrasonic-Holds i (tail ps) ds (take_switch s (pos i) ps).1 k in
      let e : as_int (i % 2 ^ 32) ≡ pos i = ground arith in
      (
        (take_ultrasonic (take_switch s (pos i) ps).1 (pos i) ds).1,
        after_close (after_open fd' (after_close (after_open fd f))),
        rw (o, o', e, h.presses)
            (rw
              (
                k.distances,
                v,
                v',
                head-result c libc ps h.plain,
                head-result c libc ds h.plain_distances,
              )
              refl),
        k',
      )

  -- Rounds in which nothing else happens read the two queues side by side, in their order, and -1 where one has run out.
  pub polls-Holds :
      (n : ℕ) (ps ds : List Sample) (s : Driver) (f : Files)
      → Holds i ps ds s
      → (t : Driver) × (g : Files) × (polls c (fd, fd') (pos i) n s f
          ≡ some (replies_of n ps ds, t, g))
  unfolding polls
  polls-Holds zero ps ds s f h = (s, f, refl)
  polls-Holds (suc n) ps ds s f h =
      let (t, g, e, k) = poll-Holds ps ds s f h in
      let (t', g', e') = polls-Holds n (tail ps) (tail ds) t g k in (t', g', rw e (rw e' refl))

-- The hand is far: the distance at the head is 15 or more. A missing distance counts as near.
abbrev pub hand_is_far : List Sample → Bool
hand_is_far [] = false
hand_is_far (d ∷ ds) = not (ltb_ℤ d.value (pos 15))

-- The queues begin with a password: each press is the button that the row names, and the hand is far where the row has 1
-- and near where it has 0.
abbrev pub matches : List (ℕ × ℕ) → List Sample → List Sample → Bool
matches [] ps ds = true
matches ((b, far) ∷ rows) [] ds = false
matches ((b, far) ∷ rows) (p ∷ ps) ds =
    eqb_ℤ (pos b) p.value && far == (if hand_is_far ds then 1 else 0) && matches rows ps (tail ds)

is_far-head : (ds : List Sample) → is_far (head_value ds) ≡ (if hand_is_far ds then 1 else 0)
is_far-head [] = refl
is_far-head (d ∷ ds) = ground arith

-- A round for each row, one to end the loop, and `extra` more.
abbrev pub rounds_for : List (ℕ × ℕ) → ℕ → ℕ
rounds_for [] extra = suc extra
rounds_for (row ∷ rows) extra = suc (rounds_for rows extra)

begins_with-matches :
    (rows : List (ℕ × ℕ)) (extra : ℕ) (ps ds : List Sample)
    → begins_with rows (replies_of (rounds_for rows extra) ps ds) ≡ matches rows ps ds
begins_with-matches [] extra ps ds = refl
begins_with-matches ((b, far) ∷ rows) extra [] ds = ground arith
begins_with-matches ((b, far) ∷ rows) extra (p ∷ ps) ds =
    rw (is_far-head ds, begins_with-matches rows extra ps (tail ds)) (ground arith)

-- Six or more rounds of a closed coffer on the queues of its process, with nothing else happening and with libc and `open`
-- as documented, do not fault, and open it exactly when the first five presses and distances of the queues make up the
-- password; a distance that is missing counts as near, and distances are taken in their order, not by their press.
pub polls-opens :
    (c : Libc)
    → IsLibc c
    → (fd fd' : ℤ) → is_negative fd ≡ false
    → is_negative fd' ≡ false
    → (i : ℕ) → i < 2 ^ 31
    → (extra : ℕ) (ps ds : List Sample) (s : Driver) (f : Files) → Holds i ps ds s
    → (rs : List Reply) × (t : Driver) × (g : Files) × (polls c
          (fd, fd')
          (pos i)
          (rounds_for my_password extra)
          s
          f
        ≡ some (rs, t, g))
      × (opens (round (record { is_open = false; replies = rs })) ≡ matches my_password ps ds)
polls-opens c libc fd fd' o o' i small extra ps ds s f h =
    let n = rounds_for my_password extra in
    let (t, g, e) = polls-Holds c libc fd fd' o o' i small n ps ds s f h in
    (
      replies_of n ps ds,
      t,
      g,
      e,
      round-opens (replies_of n ps ds) ∙ begins_with-matches my_password extra ps ds,
    )
