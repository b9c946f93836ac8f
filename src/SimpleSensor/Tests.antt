-- ===== src/SimpleSensor/Tests.antt =====
-- Histories of the motion sensor.
use embedded_system_software.Base.{◌≡◌, refl, true, false, List, [], ◌∷◌, false}
use embedded_system_software.SimpleSensor.{
  Event, opens, starts, detects, replays, closes, step, simple_sensor_open_rest, run,
  simple_sensor_open, simple_sensor_release, simple_sensor_isr, simple_sensor_init,
  simple_sensor_exit,
}
use embedded_system_software.SimpleSensor.Opened.{closed, IsSingle, since, run-init-since}

abbrev visit : List Event
visit =
    detects 1
    ∷ opens
    ∷ starts 10
    ∷ replays 10
    ∷ detects 12
    ∷ detects 15
    ∷ closes
    ∷ detects 20
    ∷ opens
    ∷ replays 30
    ∷ starts 30
    ∷ detects 31
    ∷ []

visit-IsSingle : IsSingle closed visit
visit-IsSingle = (
  refl,
  (refl, (refl, (refl, (refl, (refl, (refl, (refl, (refl, (refl, (refl, (refl, tt))))))))))),
)

run-init-since_example :
    (run visit (simple_sensor_init true).1).printed ≡ since closed 0 false visit
run-init-since_example = run-init-since visit visit-IsSingle

-- The fourth line is for the detection at 20, when nobody had the device open, with the seconds since the opening at 10.
visit-printed : (run visit (simple_sensor_init true).1).printed ≡ 0 ∷ 2 ∷ 5 ∷ 20 ∷ 1 ∷ []
unfolding run step simple_sensor_open simple_sensor_open_rest simple_sensor_release
    simple_sensor_isr
visit-printed = refl

-- Two programs have the device open; when one closes it, the other gets no more detections.
two_programs :
    (run
      (opens ∷ starts 10 ∷ opens ∷ starts 11 ∷ detects 12 ∷ closes ∷ detects 13 ∷ [])
      (simple_sensor_init true).1).printed
    ≡ 1 ∷ []
unfolding run step simple_sensor_open simple_sensor_open_rest simple_sensor_release
    simple_sensor_isr
two_programs = refl

-- An interrupt that is refused is freed by the loading, and once more by the removal.
exit-refused : (simple_sensor_exit (simple_sensor_init false).1).bad_frees ≡ 2
exit-refused = refl
