-- ===== src/SensorProc/Life.antt =====
-- The list of detections from the loading of the module to its removal.
use embedded_system_software.Base.{
  ℕ, ◌+◌, ◌%◌, ◌^◌, ◌<◌, ◌≡◌, refl, sym, ap, ◌∙◌, true, false, Option, some, List, [], ◌∷◌, ◌++◌,
  arith, lt→ltb, ◌>>=◌, length, append-nil, append_assoc, append_assoc,
}
use embedded_system_software.Format.{print_int}
use embedded_system_software.Format.Numbers.{length-print_int}
use embedded_system_software.Kernel.{Kernel, IsServing, Heap, kmalloc, kfree}
use embedded_system_software.SensorProc.{
  show_list, Sensor, line, proc_buf_size, show_from, sensor_proc_show, sensor_proc_isr,
  sensor_proc_init, free_list, sensor_proc_exit,
}

length-line : (index sec : ℕ) → length (line index sec) < proc_buf_size
length-line index sec =
    let first =
      length-print_int index (93 ∷ 32 ∷ 116 ∷ 105 ∷ 109 ∷ 101 ∷ 58 ∷ 32 ∷ print_int sec []) in
    let second = length-print_int sec [] in omega arith

-- The lines in the order of the list, numbered from `index` on.
unfoldable pub lines : ℕ → List ℕ → List ℕ
lines index [] = []
lines index (sec ∷ times) = line index sec ++ 10 ∷ lines ((index + 1) % 2 ^ 32) times

show_from-lines : (times : List ℕ) (index : ℕ) → show_from index times ≡ some (lines index times)
unfolding show_from lines
show_from-lines [] index = refl
show_from-lines (sec ∷ times) index =
    rw
      (
        lt→ltb (length (line index sec)) proc_buf_size (length-line index sec),
        show_from-lines times ((index + 1) % 2 ^ 32),
      )
      refl

-- The detections at these times, one after the other.
unfoldable pub detect : Kernel → List ℕ → Sensor → Option Sensor
detect k [] s = some s
detect k (now ∷ times) s = sensor_proc_isr k now s >>= detect k times

module _ (k : Kernel) (serves : IsServing k) where
  detect-appends :
      (times : List ℕ) (s : Sensor)
      → (t : Sensor) × (detect k times s ≡ some t)
        × (t.time_list ≡ s.time_list ++ times)
        × (t.heap.kmallocs ≡ s.heap.kmallocs + length times)
        × (t.heap.kfrees ≡ s.heap.kfrees)
        × (t.requested ≡ s.requested)
        × (t.bad_frees ≡ s.bad_frees)
  unfolding detect
  detect-appends [] s = (s, refl, sym (append-nil s.time_list), omega arith, refl, refl, refl)
  detect-appends (now ∷ times) s =
      let n : Sensor = record s { time_list = s.time_list ++ now ∷ []; heap = kmalloc s.heap } in
      let ih = detect-appends times n in
      (
        ih.0,
        rw serves.kmalloc_serves ih.1,
        ih.2 ∙ append_assoc s.time_list (now ∷ []) times,
        omega (arith, ih.3),
        ih.4,
        ih.5,
        ih.6,
      )

free_list-kfrees :
    (times : List ℕ) (h : Heap)
    → ((free_list times h).kfrees ≡ h.kfrees + length times)
      × ((free_list times h).kmallocs ≡ h.kmallocs)
unfolding free_list
free_list-kfrees [] h = (omega arith, refl)
free_list-kfrees (sec ∷ times) h =
    let ih = free_list-kfrees times (kfree h) in (omega (arith, ih.0), ih.1)

-- The module from its loading to its removal, with the detections and a look at the proc file in between.
abbrev pub shown_and_left : Kernel → List ℕ → Option (Option (List ℕ) × Sensor)
shown_and_left k times =
    detect k times (sensor_proc_init true).1
    >>= (λ s. some (sensor_proc_show s, sensor_proc_exit s))

-- When the interrupt is requested and memory is there, every detection has its line in the proc file, in order and
-- numbered from 0, no line overflows the buffer, and the removal of the module frees each node and the interrupt.
pub sensor-life :
    (k : Kernel)
    → IsServing k
    → (now : ℕ) (times : List ℕ)
    → (s : Sensor) × (shown_and_left k (now ∷ times) ≡ some (some (lines 0 (now ∷ times)), s))
      × (s.heap.kmallocs ≡ s.heap.kfrees)
      × (s.time_list ≡ [])
      × (s.requested ≡ false)
      × (s.bad_frees ≡ 0)
sensor-life k serves now times =
    let (t, same, list, allocs, frees, held, bad) =
      detect-appends k serves (now ∷ times) (sensor_proc_init true).1 in
    let gone = free_list-kfrees t.time_list t.heap in
    let text = ap show_list list ∙ show_from-lines (now ∷ times) 0 in
    let count = ap length list in
    (sensor_proc_exit t, rw (same, text) refl, omega arith, refl, refl, rw (bad, held) refl)
