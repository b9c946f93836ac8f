-- ===== src/Speaker.antt =====
-- assignment2/src/driver/actuator/speaker/speaker.c: the tones for a right and a wrong password.
use embedded_system_software.Base.{
  ℕ, ◌+◌, ◌*◌, ◌≡◌, refl, ◌⊎◌, inl, inr, List, [], ◌∷◌, ◌++◌, arith, if◌then◌else◌, ℤ, is_negative,
  ok_code, minus_one,
}
use embedded_system_software.Actuator.{
  gpio_free, Action, write, udelay, repeat, duration, duration-append, duration-repeat, level_after,
  level_after-append,
}

abbrev pub speaker : ℕ
speaker = 12

-- One period of the wave: the pin is high and low for `note` microseconds each.
abbrev pub period : ℕ → List Action
period note = write speaker 1 ∷ udelay note ∷ write speaker 0 ∷ udelay note ∷ []

unfoldable pub play : ℕ → List Action
play note = repeat 100 (period note)

-- The loop over the notes of a melody.
unfoldable pub play_all : List ℕ → List Action
unfolding play
play_all [] = []
play_all (n ∷ notes) = play n ++ play_all notes

abbrev pub correct_notes : List ℕ
correct_notes = 1516 ∷ 1136 ∷ 1803 ∷ 1516 ∷ 1136 ∷ []

unfoldable pub speaker_correct : List Action
unfolding play_all
speaker_correct = play_all correct_notes ++ (write speaker 0 ∷ [])

unfoldable pub speaker_incorrect : List Action
unfolding play
speaker_incorrect = repeat 2 (play 1136) ++ (write speaker 0 ∷ [])

pub data Command : Type 0 where
  correct incorrect unknown : Command

unfoldable pub speaker_ioctl : Command → ℤ × List Action
speaker_ioctl correct = (ok_code, speaker_correct)
speaker_ioctl incorrect = (ok_code, speaker_incorrect)
speaker_ioctl unknown = (ok_code, [])

-- `speaker_init` with what `cdev_add` returns, and the pins that stay requested.
unfoldable pub speaker_init : ℤ → ℤ × List ℕ
speaker_init added = (if is_negative added then minus_one else ok_code, speaker ∷ [])

-- `speaker_exit`: what it writes, and the pins that stay requested.
abbrev pub speaker_exit : List ℕ → List Action × List ℕ
speaker_exit pins = (write speaker 0 ∷ [], gpio_free speaker pins)

duration-period : (note : ℕ) → duration (period note) ≡ 2 * note
unfolding duration
duration-period note = omega arith

-- A tone of `note` takes 200 times `note` microseconds: a hundred periods of twice the half-wave.
pub duration-play : (note : ℕ) → duration (play note) ≡ 200 * note
unfolding play
duration-play note = omega (arith, duration-repeat 100 (period note), duration-period note)

abbrev pub sum : List ℕ → ℕ
sum [] = 0
sum (n ∷ notes) = n + sum notes

-- A melody takes as long as its tones together.
duration-play_all : (notes : List ℕ) → duration (play_all notes) ≡ 200 * sum notes
unfolding play_all duration
duration-play_all [] = refl
duration-play_all (n ∷ notes) =
    omega
      (arith, duration-append (play n) (play_all notes), duration-play n, duration-play_all notes)

level_after-last :
    (l : ℕ) (acts : List Action) → level_after speaker l (acts ++ (write speaker 0 ∷ [])) ≡ 0
unfolding level_after
level_after-last l acts = rw (level_after-append speaker l acts (write speaker 0 ∷ []))

-- Every command returns 0; a melody leaves the pin low, whatever its level was, and an unknown command leaves it alone.
pub speaker_ioctl_lem :
    (c : Command) (l : ℕ)
    → ((speaker_ioctl c).0 ≡ ok_code)
      × ((level_after speaker l (speaker_ioctl c).1 ≡ 0)
          ⊎ ((c ≡ unknown) × ((speaker_ioctl c).1 ≡ [])))
unfolding speaker_ioctl speaker_correct speaker_incorrect
speaker_ioctl_lem correct l = (refl, inl (level_after-last l (play_all correct_notes)))
speaker_ioctl_lem incorrect l = (refl, inl (level_after-last l (repeat 2 (play 1136))))
speaker_ioctl_lem unknown l = (refl, inr (refl, refl))

-- Unloading gives back the pin that loading requested, and leaves it low.
speaker_exit-speaker_init :
    (added : ℤ) (l : ℕ)
    → ((speaker_exit (speaker_init added).1).1 ≡ [])
      × (level_after speaker l (speaker_exit (speaker_init added).1).0 ≡ 0)
unfolding speaker_init level_after
speaker_exit-speaker_init added l = (refl, refl)
