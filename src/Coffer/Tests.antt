-- ===== src/Coffer/Tests.antt =====
-- Instances and runs of the coffer.
use embedded_system_software.Base.{
  ℕ, ◌-◌, ◌/◌, ◌≡◌, refl, true, false, some, List, [], ◌∷◌, arith, set, replicate, ℤ, pos,
  minus_one,
}
use embedded_system_software.Libc.{posix, posix-IsLibc}
use embedded_system_software.Switch.{Driver}
use embedded_system_software.Switch.Events.{run}
use embedded_system_software.Switch.Echo.{IsElapsed}
use embedded_system_software.Coffer.Live.{polls, rounds_for}
use embedded_system_software.Coffer.Presses.{Press, all_events, attempt-opens}
use embedded_system_software.Kernel.{no_calls}
use embedded_system_software.Coffer.{my_password, Reply, round, main_loop}
use embedded_system_software.Coffer.Password.{opens, round-opens}
use embedded_system_software.Coffer.Loop.{main_loop-alternates, lock_after}
use embedded_system_software.Coffer.Devices.{Files}

abbrev press : ℕ → ℕ → Reply
press button distance = record { ret = pos button; distance = pos distance }

abbrev idle : Reply
idle = record { ret = minus_one; distance = minus_one }

-- The password, and a reply after it.
abbrev right_presses : List Reply
right_presses = press 1 3 ∷ press 2 20 ∷ press 3 9 ∷ press 3 15 ∷ press 1 14 ∷ idle ∷ []

round-opens_example : opens (round (record { is_open = false; replies = right_presses })) ≡ true
round-opens_example = round-opens right_presses

main_loop-alternates_example :
    let (done, acts, last) = main_loop 7 (record { is_open = false; replies = right_presses }) in
    (done ≡ true) × (lock_after false acts ≡ some last.is_open)
main_loop-alternates_example =
    main_loop-alternates 7 (record { is_open = false; replies = right_presses }) (omega arith)

abbrev no_files : Files
no_files = record { opened = 0; closed = 0 }

-- A clock in nanoseconds, and a driver whose queue 1 is in use.
abbrev clock_us : ℕ → ℕ → ℤ
clock_us stop start = pos ((stop - start) / 1000)

clock_us-IsElapsed : IsElapsed clock_us
clock_us-IsElapsed = record { micros = λ stop start h. refl }

abbrev used_once : Driver
used_once = record {
  switch_queues = replicate 10 [];
  ultrasonic_queues = replicate 10 [];
  queue_use = set (replicate 10 0) 1 1;
  pre = 0;
  echo_valid_flag = 3;
  echo_start = 0;
  echo_stop = 0;
  switch_data_tmp = record { value = pos 0; timestamp = 0 };
  ultrasonic_data_tmp = record { value = pos 0; timestamp = 0 };
  switch_pending = false;
  ultrasonic_pending = false;
  trigger = [];
  heap = no_calls;
}

-- A hand at 10 cm and one at 20 cm.
abbrev near_press : ℕ → ℕ → Press
near_press button jiffies = record {
  number = button;
  at_jiffies = jiffies;
  start = 1000;
  stop = 581000;
}

abbrev far_press : ℕ → ℕ → Press
far_press button jiffies = record {
  number = button;
  at_jiffies = jiffies;
  start = 1000;
  stop = 1161000;
}

-- The password in front of the sensor.
abbrev five_presses : List Press
five_presses =
    near_press 1 100 ∷ far_press 2 200 ∷ near_press 3 300 ∷ far_press 3 400 ∷ near_press 1 500 ∷ []

attempt-opens_example :
    (rs : List Reply) × (t t' : Driver) × (g : Files) × (run clock_us
        (all_events five_presses)
        used_once
      ≡ some t)
    × (polls posix (pos 3, pos 4) (pos 1) (rounds_for my_password 2) t no_files ≡ some (rs, t', g))
    × (opens (round (record { is_open = false; replies = rs })) ≡ true)
attempt-opens_example =
    attempt-opens clock_us clock_us-IsElapsed posix posix-IsLibc (pos 3) (pos 4) refl refl 1 1 2
      five_presses used_once no_files (omega arith) (λ e. omega arith) refl refl refl (omega arith)
      refl ground arith
