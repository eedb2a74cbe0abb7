-- ===== src/Ps2/Tests.antt =====
-- The theorems on the 8042 at concrete inputs: a controller that never says that there is
-- something to read, and one that acknowledges everything.
use ann_os.Base.{ℕ, ◌≡◌, refl, true, ◌==◌, if◌then◌else◌, ◌↔◌, some, [], ◌∷◌, ok, bit_and}
use ann_os.Io.{History, Hardware, read8, wrote8}
use ann_os.Ps2.{flush, poll, answer, send_command, initialize_ps2}
use ann_os.Ps2.Commands.{Answered, send_command-Answered_iff}
use ann_os.Ps2.Enabling.{
  Drains, configuration, first_enabled, second_enabled, initialize_ps2-enabled,
}

abbrev quiet : Hardware
quiet h port = if port == 0x64 then 0 else 0xfa

-- Full when something was sent last.
abbrev eager : Hardware
eager (wrote8 p v ∷ h) port = if port == 0x64 then 1 else 0xfa
eager h port = if port == 0x64 then 0 else 0xfa

drains : Drains quiet 1
unfolding flush
drains h = (read8 0x64 ∷ h, refl)

initialize_ps2-enabled_example :
    (max_channels : ℕ) × (h' : History) × (initialize_ps2 quiet 1 [] ≡ ok (max_channels, h'))
    × ((v : ℕ) × (configuration h' ≡ some v) × (bit_and v 0x3 ≡ 0x3))
    × (first_enabled h' ≡ true)
    × (second_enabled h' ≡ (max_channels == 2))
initialize_ps2-enabled_example = initialize_ps2-enabled quiet 1 drains []

send_command-Answered_iff_example :
    (true ≡ true) ↔ Answered eager (read8 0x60 ∷ read8 0x64 ∷ wrote8 0x60 0xf4 ∷ read8 0x64 ∷ [])
unfolding send_command flush poll answer
send_command-Answered_iff_example = send_command-Answered_iff eager 1 0xf4 1 0 [] _ true refl
