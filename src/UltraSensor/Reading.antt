-- ===== src/UltraSensor/Reading.antt =====
-- What simple_ultra.c prints of the edges of the echo.
use embedded_system_software.Base.{
  ℕ, ◌≡◌, refl, ap, ◌∙◌, ◌⊎◌, inl, inr, true, false, Option, none, some, List, [], ◌∷◌, ◌++◌, arith,
  ◌==◌, if◌then◌else◌, Bool-cases, ℤ,
}
use embedded_system_software.Switch.{int_of, div_int, Edge}
use embedded_system_software.UltraSensor.{Sensor, simple_ultra_isr, run, simple_ultra_init}

-- The clock at the first edge with this value of the pin, and the edges after it.
abbrev pub first_edge : ℕ → List Edge → Option (ℕ × List Edge)
first_edge value [] = none
first_edge value (e ∷ es) = if e.echo == value then some (e.now, es) else first_edge value es

-- The distance of an echo that began at `start` and ends with this edge.
abbrev pub echo_end : (ℕ → ℕ → ℤ) → ℕ → Option (ℕ × List Edge) → List ℤ
echo_end us start none = []
echo_end us start (some (stop, es)) = div_int (int_of (us stop start)) 58 ∷ []

-- The distance between the first rising edge and the first falling edge after it.
abbrev pub distance : (ℕ → ℕ → ℤ) → Option (ℕ × List Edge) → List ℤ
distance us none = []
distance us (some (start, es)) = echo_end us start (first_edge 0 es)

module _ (us : ℕ → ℕ → ℤ) (e : Edge) (s : Sensor) where
  isr-ignores :
      (s.echo_valid_flag ≡ 3)
        ⊎ ((s.echo_valid_flag ≡ 2) × ((e.echo == 0) ≡ false))
        ⊎ ((s.echo_valid_flag ≡ 1) × ((e.echo == 1) ≡ false))
      → simple_ultra_isr us e s ≡ s
  unfolding simple_ultra_isr
  isr-ignores h = ground arith

  isr-rises :
      s.echo_valid_flag ≡ 1
      → (e.echo == 1) ≡ true
      → simple_ultra_isr us e s ≡ record s { echo_start = e.now; echo_valid_flag = 2 }
  unfolding simple_ultra_isr
  isr-rises one rises = ground arith

  isr-falls :
      s.echo_valid_flag ≡ 2
      → (e.echo == 0) ≡ true
      → simple_ultra_isr us e s ≡ record s {
        echo_stop = e.now;
        printed = s.printed ++ div_int (int_of (us e.now s.echo_start)) 58 ∷ [];
        echo_valid_flag = 3;
      }
  unfolding simple_ultra_isr
  isr-falls two falls = ground arith

run-done : (us : ℕ → ℕ → ℤ) (es : List Edge) (s : Sensor) → s.echo_valid_flag ≡ 3 → run us es s ≡ s
unfolding run
run-done us [] s done = refl
run-done us (e ∷ es) s done = ap (run us es) (isr-ignores us e s (inl done)) ∙ run-done us es s done

run-falls :
    (us : ℕ → ℕ → ℤ) (es : List Edge) (s : Sensor)
    → s.echo_valid_flag ≡ 2
    → s.printed ≡ []
    → (run us es s).printed ≡ echo_end us s.echo_start (first_edge 0 es)
unfolding run
run-falls us [] s two none_yet = none_yet
run-falls us (e ∷ es) s two none_yet = elim (Bool-cases (e.echo == 0)) [
  | inl falls ↦
      let cm = div_int (int_of (us e.now s.echo_start)) 58 in
      let t : Sensor = record s {
        echo_stop = e.now;
        printed = s.printed ++ cm ∷ [];
        echo_valid_flag = 3;
      } in
      rw falls (
        ap (λ r. (run us es r).printed) (isr-falls us e s two falls)
        ∙ ap (λ r. r.printed) (run-done us es t refl)
        ∙ ap (λ l. l ++ cm ∷ []) none_yet)
  | inr rises ↦ rw rises (
      ap (λ r. (run us es r).printed) (isr-ignores us e s (inr (inl (two, rises))))
      ∙ run-falls us es s two none_yet)
]

run-rises :
    (us : ℕ → ℕ → ℤ) (es : List Edge) (s : Sensor)
    → s.echo_valid_flag ≡ 1
    → s.printed ≡ []
    → (run us es s).printed ≡ distance us (first_edge 1 es)
unfolding run
run-rises us [] s one none_yet = none_yet
run-rises us (e ∷ es) s one none_yet = elim (Bool-cases (e.echo == 1)) [
  | inl rises ↦
      let t : Sensor = record s { echo_start = e.now; echo_valid_flag = 2 } in
      rw rises (
        ap (λ r. (run us es r).printed) (isr-rises us e s one rises)
        ∙ run-falls us es t refl none_yet)
  | inr falls ↦ rw falls (
      ap (λ r. (run us es r).printed) (isr-ignores us e s (inr (inr (one, falls))))
      ∙ run-rises us es s one none_yet)
]

-- Whatever edges come once the module is loaded, it prints the distance of the first echo, from the first rising edge to
-- the first falling edge after it, and nothing else; without such an echo it prints nothing.
run-distance :
    (us : ℕ → ℕ → ℤ) (es : List Edge)
    → (run us es (simple_ultra_init true).1).printed ≡ distance us (first_edge 1 es)
run-distance us es = run-rises us es (simple_ultra_init true).1 refl refl
