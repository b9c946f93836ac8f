-- ===== src/SimpleTasklet/Coalesce.antt =====
-- How often the tasklet runs.
use embedded_system_software.Base.{
  ℕ, suc, ◌≡◌, refl, ap, ◌∙◌, Bool, true, false, List, [], ◌∷◌, ◌++◌, replicate, append-nil,
  append_assoc,
}
use embedded_system_software.SimpleTasklet.{
  Module, MyData, Event, press, softirq, step, run, simple_tasklet_init, simple_tasklet_exit,
  simple_tasklet_func, simple_tasklet_isr, tasklet_kill,
}

-- The presses that come when none waits for the tasklet.
abbrev pub bursts : Bool → List Event → ℕ
bursts waiting [] = 0
bursts true (press ∷ es) = bursts true es
bursts false (press ∷ es) = suc (bursts true es)
bursts waiting (softirq ∷ es) = bursts false es

-- With the one that waits already.
abbrev answers : Bool → List Event → ℕ
answers true es = suc (bursts true es)
answers false es = bursts false es

-- The module between two events, with the interrupt.
abbrev loaded : MyData → ℕ → List ℕ → Bool → List MyData → Module
loaded d bad pins waiting out = record {
  my_tasklet_data = d;
  scheduled = waiting;
  printed = out;
  requested = true;
  bad_frees = bad;
  gpios = pins;
}

run-killed :
    (es : List Event) (d : MyData) (waiting : Bool) (out : List MyData) (bad : ℕ) (pins : List ℕ)
    → tasklet_kill (run es (loaded d bad pins waiting out))
      ≡ loaded d bad pins false (out ++ replicate (answers waiting es) d)
unfolding run step tasklet_kill simple_tasklet_func simple_tasklet_isr
run-killed [] d true out bad pins = refl
run-killed [] d false out bad pins = rw (append-nil out) refl
run-killed (press ∷ es) d true out bad pins = run-killed es d true out bad pins
run-killed (press ∷ es) d false out bad pins = run-killed es d true out bad pins
run-killed (softirq ∷ es) d true out bad pins =
    run-killed es d false (out ++ (d ∷ [])) bad pins
    ∙ ap (loaded d bad pins false) (append_assoc out (d ∷ []) (replicate (bursts false es) d))
run-killed (softirq ∷ es) d false out bad pins = run-killed es d false out bad pins

-- Whatever presses come and whenever the tasklet runs, when no press comes during the removal the module has printed its date once for each
-- press that came with none waiting, leaves nothing scheduled, and frees its interrupt and its pin.
exit-bursts :
    (es : List Event)
    → let s = simple_tasklet_exit [] (run es (simple_tasklet_init true).1) in
      (s.printed ≡ replicate (bursts false es) (record { year = 2020; month = 6; day = 14 }))
      × (s.scheduled ≡ false)
      × (s.bad_frees ≡ 0)
      × (s.gpios ≡ [])
unfolding simple_tasklet_exit run
exit-bursts es =
    rw (run-killed es (record { year = 2020; month = 6; day = 14 }) false [] 0 (17 ∷ []))
      (refl, refl, refl, refl)
