-- ===== src/Coffer/Presses.antt =====
-- From presses and echoes to the lock: every press that comes in time leads to a reading, and the queues of a process hold
-- both in the order of the presses.
use embedded_system_software.Base.{
  append-nil, append_assoc, ℕ, ◌+◌, ◌-◌, ◌/◌, ◌^◌, ◌≤◌, ◌<◌, ◌≡◌, refl, ◌∙◌, ◌≢◌, Bool, true, false,
  ◌&&◌, some, List, [], ◌∷◌, ◌++◌, map, arith, ltb, ◌==◌, if◌then◌else◌, get_elem?, All-append, ℤ,
  pos, is_negative,
}
use embedded_system_software.Switch.{
  Driver, Sample, debounce, broadcast, users, allocate, switch_irq_isr, ultrasonic_isr,
  switch_tasklet_func, ultrasonic_tasklet_func,
}
use embedded_system_software.Switch.Events.{
  Event, button, echo, run_switch, run_ultrasonic, step, run,
}
use embedded_system_software.Switch.Delivery.{get_elem?-broadcast}
use embedded_system_software.Switch.Echo.{IsElapsed}
use embedded_system_software.Libc.{Libc, IsLibc}
use embedded_system_software.Coffer.{Reply, my_password, round}
use embedded_system_software.Coffer.Password.{opens}
use embedded_system_software.Coffer.Devices.{Files}
use embedded_system_software.Coffer.Live.{Holds, IsPlain, matches, polls, polls-opens, rounds_for}

-- A press and the echo of the reading that it starts: the button, its jiffies, and the clock at both edges in nanoseconds.
pub record Press : Type 0 where
  pub number : ℕ
  pub at_jiffies : ℕ
  pub start : ℕ
  pub stop : ℕ

abbrev pub press_sample : Press → Sample
press_sample p = record { value = pos p.number; timestamp = p.at_jiffies }

abbrev pub distance_sample : Press → Sample
distance_sample p = record { value = pos ((p.stop - p.start) / 58000); timestamp = p.at_jiffies }

-- The interrupt of the button and its tasklet, the two edges of the echo and their tasklet.
abbrev pub events_of : Press → List Event
events_of p =
    button p.number p.at_jiffies
    ∷ run_switch true
    ∷ echo (record { now = p.start; echo = 1; jiffies = p.at_jiffies })
    ∷ echo (record { now = p.stop; echo = 0; jiffies = p.at_jiffies })
    ∷ run_ultrasonic true
    ∷ []

abbrev pub all_events : List Press → List Event
all_events [] = []
all_events (p ∷ ps) = events_of p ++ all_events ps

-- Each press comes more than 20 jiffies after the one before it, in the range of the jiffies, and its echo in that of an int.
abbrev pub InTime : ℕ → List Press → Type 0
InTime pre [] = Unit {0}
InTime pre (p ∷ ps) =
    (pre + debounce < p.at_jiffies)
    × (p.at_jiffies + debounce < 2 ^ 32)
    × (p.start ≤ p.stop)
    × ((p.stop - p.start) / 1000 < 2 ^ 31)
    × InTime p.at_jiffies ps

abbrev after : Press → Driver → Driver
after p s = record s {
  switch_queues = broadcast (press_sample p) s.queue_use s.switch_queues;
  ultrasonic_queues = broadcast (distance_sample p) s.queue_use s.ultrasonic_queues;
  pre = p.at_jiffies;
  echo_start = p.start;
  echo_stop = p.stop;
  echo_valid_flag = 3;
  switch_data_tmp = press_sample p;
  ultrasonic_data_tmp = distance_sample p;
  switch_pending = false;
  ultrasonic_pending = false;
  trigger = 0 ∷ 1 ∷ s.trigger;
  heap = allocate (users s.queue_use) (allocate (users s.queue_use) s.heap);
}

-- The state between the tasklet of the button and the echo.
abbrev asked : Press → Driver → Driver
asked p s = record s {
  switch_queues = broadcast (press_sample p) s.queue_use s.switch_queues;
  pre = p.at_jiffies;
  echo_start = 1;
  echo_stop = 1;
  echo_valid_flag = 1;
  switch_data_tmp = press_sample p;
  switch_pending = false;
  trigger = 0 ∷ 1 ∷ s.trigger;
  heap = allocate (users s.queue_use) s.heap;
}

asked_lem :
    (p : Press) (s : Driver)
    → s.pre + debounce < 2 ^ 32
    → s.echo_valid_flag ≡ 3
    → s.pre + debounce < p.at_jiffies
    → switch_tasklet_func true
        (record s { switch_data_tmp = press_sample p; switch_pending = false })
      ≡ some (asked p s)
unfolding switch_tasklet_func
asked_lem p s small idle late = ground arith

module _ (us : ℕ → ℕ → ℤ) (doc : IsElapsed us) where
  read_lem :
      (p : Press) (s : Driver)
      → p.start ≤ p.stop
      → (p.stop - p.start) / 1000 < 2 ^ 31
      → ultrasonic_isr us
          (record { now = p.stop; echo = 0; jiffies = p.at_jiffies })
          (ultrasonic_isr us
            (record { now = p.start; echo = 1; jiffies = p.at_jiffies })
            (asked p s))
        ≡ record (asked p s) {
          echo_start = p.start;
          echo_stop = p.stop;
          echo_valid_flag = 3;
          ultrasonic_data_tmp = distance_sample p;
          ultrasonic_pending = true;
        }
  unfolding ultrasonic_isr
  read_lem p s order fits = ground (arith, doc.micros p.stop p.start order)

  run_press :
      (p : Press) (es : List Event) (s : Driver)
      → s.pre + debounce < 2 ^ 32
      → s.echo_valid_flag ≡ 3
      → InTime s.pre (p ∷ [])
      → run us (events_of p ++ es) s ≡ run us es (after p s)
  unfolding run step switch_irq_isr ultrasonic_tasklet_func
  run_press p es s small idle (late, fits, order, short, rest) =
      rw (asked_lem p s small idle late) (rw (read_lem p s order short) refl)

  -- Presses that come in time, each with its echo, do not fault, and fill both queues of a process in their order.
  pub run_presses :
      (i u : ℕ) (ps : List Press) (qs ds : List Sample) (s : Driver)
      → u ≢ 0
      → get_elem? s.queue_use i ≡ some u
      → s.pre + debounce < 2 ^ 32
      → s.echo_valid_flag ≡ 3
      → InTime s.pre ps
      → Holds i qs ds s
      → (t : Driver) × (run us (all_events ps) s ≡ some t)
        × Holds i (qs ++ map press_sample ps) (ds ++ map distance_sample ps) t
  unfolding run
  run_presses i u [] qs ds s nz used small idle timely h = (s, refl, rw (append-nil, append-nil) h)
  run_presses i u (p ∷ ps) qs ds s nz used small idle (late, fits, order, short, rest) h =
      let in_use : (u == 0) ≡ false = ground arith in
      let (t, e, k) =
        run_presses i u ps (qs ++ (press_sample p ∷ [])) (ds ++ (distance_sample p ∷ []))
          (after p s) nz used fits refl rest
          (record {
            presses = rw in_use at (
                get_elem?-broadcast (press_sample p) s.queue_use s.switch_queues i u qs used
                  h.presses);
            distances = rw in_use at (
                get_elem?-broadcast (distance_sample p) s.queue_use s.ultrasonic_queues i u ds used
                  h.distances);
            plain = All-append IsPlain qs (press_sample p ∷ []) h.plain (refl, tt);
            plain_distances =
                All-append IsPlain ds (distance_sample p ∷ []) h.plain_distances (refl, tt);
          }) in
      (
        t,
        run_press p (all_events ps) s small idle (late, fits, order, short, tt) ∙ e,
        rw
            (
              append_assoc qs (press_sample p ∷ []) (map press_sample ps),
              append_assoc ds (distance_sample p ∷ []) (map distance_sample ps),
            )
            at k,
      )

-- The presses give the password: the right button for each row, with the hand at 15 centimetres or more, told by the width
-- of the echo in nanoseconds, exactly where the row has 1.
abbrev pub gives : List (ℕ × ℕ) → List Press → Bool
gives [] ps = true
gives ((b, far) ∷ rows) [] = false
gives ((b, far) ∷ rows) (p ∷ ps) =
    b == p.number && far == (if ltb (p.stop - p.start) 870000 then 0 else 1) && gives rows ps

matches-gives :
    (rows : List (ℕ × ℕ)) (ps : List Press)
    → matches rows (map press_sample ps) (map distance_sample ps) ≡ gives rows ps
matches-gives [] ps = refl
matches-gives ((b, far) ∷ rows) [] = refl
matches-gives ((b, far) ∷ rows) (p ∷ ps) = ground (arith, matches-gives rows ps)

-- From the buttons to the lock. A process uses queue `i`, which is empty, the sensor is idle, and libc, `open` and the clock
-- do what is documented. After any presses in time, each with its echo, nothing faults, and six or more rounds of the
-- closed coffer open it exactly when the first five presses give the password.
pub attempt-opens :
    (us : ℕ → ℕ → ℤ)
    → IsElapsed us
    → (c : Libc) → IsLibc c
    → (fd fd' : ℤ) → is_negative fd ≡ false
    → is_negative fd' ≡ false
    → (i u extra : ℕ) (ps : List Press) (s : Driver) (f : Files) → i < 2 ^ 31
    → u ≢ 0
    → get_elem? s.queue_use i ≡ some u
    → get_elem? s.switch_queues i ≡ some []
    → get_elem? s.ultrasonic_queues i ≡ some []
    → s.pre + debounce < 2 ^ 32
    → s.echo_valid_flag ≡ 3
    → InTime s.pre ps
    → (rs : List Reply) × (t t' : Driver) × (g : Files) × (run us (all_events ps) s ≡ some t)
      × (polls c (fd, fd') (pos i) (rounds_for my_password extra) t f ≡ some (rs, t', g))
      × (opens (round (record { is_open = false; replies = rs })) ≡ gives my_password ps)
attempt-opens us doc c libc fd fd' o o' i u extra ps s f small nz used empty empty' room idle
      timely =
    let (t, e, h) =
      run_presses us doc i u ps [] [] s nz used room idle timely
        (record { presses = empty; distances = empty'; plain = tt; plain_distances = tt }) in
    let (rs, t', g, e', r) =
      polls-opens c libc fd fd' o o' i small extra (map press_sample ps) (map distance_sample ps) t
        f h in
    (rs, t, t', g, e, e', r ∙ matches-gives my_password ps)
