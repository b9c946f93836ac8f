-- ===== src/SimpleSpeaker/Tests.antt =====
-- The scale, the pins that are released, and the lamp.
use embedded_system_software.Base.{◌≡◌, refl, []}
use embedded_system_software.Actuator.{level_after, repeat}
use embedded_system_software.SimpleSpeaker.{
  simple_speaker_init, simple_speaker_exit, simple_led_init, simple_led_exit, play, play_notes,
  notes,
}

loading-quiet : level_after 12 0 (simple_speaker_init).0 ≡ 0
unfolding simple_speaker_init play play_notes notes level_after repeat
loading-quiet = refl

speaker-released : (simple_speaker_exit (simple_speaker_init).1).1 ≡ []
unfolding simple_speaker_init
speaker-released = refl

lamp-lit : level_after 4 0 (simple_led_init).0 ≡ 1
unfolding level_after
lamp-lit = refl

lamp-released : (simple_led_exit (simple_led_init).1).1 ≡ []
lamp-released = refl
