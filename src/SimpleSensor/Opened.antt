-- ===== src/SimpleSensor/Opened.antt =====
-- One program at a time with the sensor open.
use embedded_system_software.Base.{
  ℕ, ◌≡◌, refl, sym, ap, ◌∙◌, Bool, true, false, List, [], ◌∷◌, ◌++◌, arith, if◌then◌else◌,
  append-nil, append_assoc,
}
use embedded_system_software.SimpleSensor.{
  Sensor, Event, opens, starts, detects, replays, closes, seconds, step, simple_sensor_open_rest,
  run, simple_sensor_open, simple_sensor_release, simple_sensor_isr, simple_sensor_init,
}

-- Where the one program is with the device, when the last opening was, 0 before the first, and whether there was a detection while
-- the device was closed that has not been printed.
pub data Use : Type 0 where
  closed opening opened : Use

abbrev pub after : Event → Use → Use
after opens u = opening
after (starts now) u = opened
after (detects now) u = u
after (replays now) u = u
after closes u = closed

-- A program opens the device while none has it open, and one that has it open closes it.
abbrev pub fits : Event → Use → Bool
fits opens closed = true
fits opens opening = false
fits opens opened = false
fits (starts now) closed = false
fits (starts now) opening = true
fits (starts now) opened = false
fits (detects now) u = true
fits (replays now) u = true
fits closes closed = false
fits closes opening = false
fits closes opened = true

abbrev pub IsSingle : Use → List Event → Type 0
IsSingle u [] = Unit {0}
IsSingle u (e ∷ es) = (fits e u ≡ true) × IsSingle (after e u) es

abbrev last_start : Event → ℕ → ℕ
last_start (starts now) last = now
last_start opens last = last
last_start (detects now) last = last
last_start (replays now) last = last
last_start closes last = last

abbrev missed : Event → Use → Bool → Bool
missed (detects now) closed was = true
missed (detects now) opening was = was
missed (detects now) opened was = was
missed (replays now) closed was = was
missed (replays now) opening was = false
missed (replays now) opened was = false
missed opens u was = was
missed (starts now) u was = was
missed closes u was = was

abbrev noticed : Event → Use → ℕ → Bool → List ℕ
noticed (detects now) closed last was = []
noticed (detects now) opening last was = seconds now last ∷ []
noticed (detects now) opened last was = seconds now last ∷ []
noticed (replays now) closed last was = []
noticed (replays now) opening last was = if was then seconds now last ∷ [] else []
noticed (replays now) opened last was = if was then seconds now last ∷ [] else []
noticed opens u last was = []
noticed (starts now) u last was = []
noticed closes u last was = []

-- The lines: one for a detection while the device is not closed, and one for all those while it was closed, when the kernel
-- gets to it after the next opening has begun.
abbrev pub since : Use → ℕ → Bool → List Event → List ℕ
since u last was [] = []
since u last was (e ∷ es) =
    noticed e u last was ++ since (after e u) (last_start e last) (missed e u was) es

abbrev disabled : Use → ℕ
disabled closed = 1
disabled opening = 0
disabled opened = 0

record Knows (u : Use) (last : ℕ) (was : Bool) (s : Sensor) : Type 0 where
  granted : s.requested ≡ true
  level : s.depth ≡ disabled u
  kept : s.pending ≡ was
  began : s.start ≡ last

step-Knows :
    (e : Event) (u : Use) (last : ℕ) (was : Bool) (s : Sensor)
    → fits e u ≡ true
    → Knows u last was s
    → Knows (after e u) (last_start e last) (missed e u was) (step e s)
      × ((step e s).printed ≡ s.printed ++ noticed e u last was)
unfolding step simple_sensor_open simple_sensor_open_rest simple_sensor_release simple_sensor_isr
step-Knows opens closed last was s h v = (
  record { granted = v.granted; level = omega (arith, v.level); kept = v.kept; began = v.began },
  sym (append-nil s.printed),
)
step-Knows opens opening last was s h v = cc
step-Knows opens opened last was s h v = cc
step-Knows (starts now) closed last was s h v = cc
step-Knows (starts now) opening last was s h v = (
  record { granted = v.granted; level = v.level; kept = v.kept; began = refl },
  sym (append-nil s.printed),
)
step-Knows (starts now) opened last was s h v = cc
step-Knows (detects now) closed last was s h v =
    rw (v.granted, v.level)
      (
        record { granted = refl; level = refl; kept = refl; began = v.began },
        sym (append-nil s.printed),
      )
step-Knows (detects now) opening last was s h v =
    rw (v.granted, v.level)
      (
        record { granted = refl; level = refl; kept = v.kept; began = v.began },
        ap (λ b. s.printed ++ (seconds now b ∷ [])) v.began,
      )
step-Knows (detects now) opened last was s h v =
    rw (v.granted, v.level)
      (
        record { granted = refl; level = refl; kept = v.kept; began = v.began },
        ap (λ b. s.printed ++ (seconds now b ∷ [])) v.began,
      )
step-Knows (replays now) closed last true s h v =
    rw (v.granted, v.kept, v.level)
      (
        record { granted = refl; level = refl; kept = refl; began = v.began },
        sym (append-nil s.printed),
      )
step-Knows (replays now) closed last false s h v =
    rw (v.granted, v.kept)
      (
        record { granted = refl; level = v.level; kept = refl; began = v.began },
        sym (append-nil s.printed),
      )
step-Knows (replays now) opening last true s h v =
    rw (v.granted, v.kept, v.level)
      (
        record { granted = refl; level = refl; kept = refl; began = v.began },
        ap (λ b. s.printed ++ (seconds now b ∷ [])) v.began,
      )
step-Knows (replays now) opening last false s h v =
    rw (v.granted, v.kept)
      (
        record { granted = refl; level = v.level; kept = refl; began = v.began },
        sym (append-nil s.printed),
      )
step-Knows (replays now) opened last true s h v =
    rw (v.granted, v.kept, v.level)
      (
        record { granted = refl; level = refl; kept = refl; began = v.began },
        ap (λ b. s.printed ++ (seconds now b ∷ [])) v.began,
      )
step-Knows (replays now) opened last false s h v =
    rw (v.granted, v.kept)
      (
        record { granted = refl; level = v.level; kept = refl; began = v.began },
        sym (append-nil s.printed),
      )
step-Knows closes closed last was s h v = cc
step-Knows closes opening last was s h v = cc
step-Knows closes opened last was s h v = (
  record { granted = v.granted; level = omega (arith, v.level); kept = v.kept; began = v.began },
  sym (append-nil s.printed),
)

run-since :
    (es : List Event) (u : Use) (last : ℕ) (was : Bool) (s : Sensor)
    → IsSingle u es
    → Knows u last was s
    → (run es s).printed ≡ s.printed ++ since u last was es
unfolding run
run-since [] u last was s h v = sym (append-nil s.printed)
run-since (e ∷ es) u last was s h v =
    let (w, same) = step-Knows e u last was s h.0 v in
    run-since es (after e u) (last_start e last) (missed e u was) (step e s) h.1 w
    ∙ ap (λ l. l ++ since (after e u) (last_start e last) (missed e u was) es) same
    ∙ append_assoc s.printed (noticed e u last was)
        (since (after e u) (last_start e last) (missed e u was) es)

-- When the interrupt is requested and one program at a time has the device open, the module prints, in their order, the detections
-- from the beginning of an opening to the closing, and once for those in between, when the kernel gets to them after the next opening has
-- begun, and no other; each line has the seconds since the last opening that has set the start, or since 0 before the first.
pub run-init-since :
    (es : List Event)
    → IsSingle closed es
    → (run es (simple_sensor_init true).1).printed ≡ since closed 0 false es
run-init-since es h =
    run-since es closed 0 false (simple_sensor_init true).1 h
      (record { granted = refl; level = refl; kept = refl; began = refl })
