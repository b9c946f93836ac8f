-- ===== src/SensorProc/Tests.antt =====
-- Runs of the list of detections of sensor_proc.c.
use embedded_system_software.Base.{◌≡◌, refl, true, false, none, some, [], ◌∷◌, pos}
use embedded_system_software.Format.{digits}
use embedded_system_software.Kernel.{serving, serving-IsServing}
use embedded_system_software.SensorProc.{
  Sensor, show_from, sensor_proc_isr, sensor_proc_init, sensor_proc_exit,
}
use embedded_system_software.SensorProc.Life.{lines, shown_and_left, sensor-life}

-- `[0] time: 7` and `[1] time: 9`
two_lines :
    show_from 0 (7 ∷ 9 ∷ [])
    ≡ some (
        91 ∷ 48 ∷ 93 ∷ 32 ∷ 116 ∷ 105 ∷ 109 ∷ 101 ∷ 58 ∷ 32 ∷ 55 ∷ 10 ∷ 91 ∷ 49 ∷ 93 ∷ 32 ∷ 116
        ∷ 105 ∷ 109 ∷ 101 ∷ 58 ∷ 32 ∷ 57 ∷ 10 ∷ [])
unfolding show_from digits
two_lines = refl

-- Without memory the handler stores the time through NULL.
isr-no_memory :
    sensor_proc_isr (record serving { kmalloc_ok = false }) 7 (sensor_proc_init true).1 ≡ none
isr-no_memory = refl

-- When `request_irq` refuses, the loading succeeds, and the interrupt is freed twice that the module does not have.
init-refused :
    ((sensor_proc_init false).0 ≡ pos 0)
    × ((sensor_proc_exit (sensor_proc_init false).1).bad_frees ≡ 2)
init-refused = (refl, refl)

sensor-life_example :
    (s : Sensor) × (shown_and_left serving (7 ∷ 9 ∷ []) ≡ some (some (lines 0 (7 ∷ 9 ∷ [])), s))
    × (s.heap.kmallocs ≡ s.heap.kfrees)
    × (s.time_list ≡ [])
    × (s.requested ≡ false)
    × (s.bad_frees ≡ 0)
sensor-life_example = sensor-life serving serving-IsServing 7 (9 ∷ [])
