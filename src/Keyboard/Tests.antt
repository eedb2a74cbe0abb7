-- ===== src/Keyboard/Tests.antt =====
-- A device with two events, and the theorem on GetKey at it.
use ann_os.Base.{
  ℕ, ◌+◌, ◌<◌, ◌≡◌, refl, true, false, Option, none, some, List, [], ◌∷◌, Memory, ok, arith, ◌⊎◌,
}
use ann_os.Keyboard.{KeyDevice, key_a, key_shift, get_key}
use ann_os.Keyboard.Pressed.{key_after, Reports, no_more, event, get_key-key_after}

-- The state of the device is the list of its events.
abbrev next : List KeyDevice → Option KeyDevice × List KeyDevice
next [] = (none, [])
next (d ∷ ds) = (some d, ds)

abbrev shift_down : KeyDevice
shift_down = record { keycode = key_shift; pressed = true; hw_keycode = 0x12 }

abbrev a_up : KeyDevice
a_up = record { keycode = key_a; pressed = false; hw_keycode = 0x1c }

abbrev held : Memory
held a = 1

two_events : Reports next (shift_down ∷ a_up ∷ []) (shift_down ∷ a_up ∷ []) []
two_events = event refl (event refl (no_more refl))

get_key-key_after_example :
    (m' : Memory) × (get_key next 0x5000 3 (shift_down ∷ a_up ∷ []) held ≡ ok ([], m'))
    × ((code : ℕ) → m' (0x5000 + code) ≡ key_after code (shift_down ∷ a_up ∷ []) 1)
    × ((q : ℕ) → (q < 0x5000) ⊎ (0x5000 + 0x86 < q) → m' q ≡ 1)
get_key-key_after_example = get_key-key_after next 0x5000 3 held two_events (omega arith)
