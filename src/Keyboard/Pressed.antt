-- ===== src/Keyboard/Pressed.antt =====
-- What `GetKey` of src/KeyboardDevice.cpp makes of the events that the device has.
use ann_os.Base.{
  ℕ, zero, suc, ◌+◌, ◌≤◌, ◌<◌, ◌≡◌, refl, ap, ◌∙◌, ◌==◌, if◌then◌else◌, Option, none, some, List,
  [], ◌∷◌, length, Memory, ok, arith, ◌⊎◌,
}
use ann_os.Keyboard.{KeyCode, KeyDevice, key_code, bool_byte, mark_key, get_key}

-- The state of key `code` after the events: that of the last event for the key.
unfoldable pub key_after : ℕ → List KeyDevice → ℕ → ℕ
key_after code [] before = before
key_after code (d ∷ ds) before =
    key_after code ds (if key_code d.keycode == code then bool_byte d.pressed else before)

key_code-le : (k : KeyCode) → key_code k ≤ 0x86
key_code-le k = grind arith

mark_key-byte :
    (pressed_keys code : ℕ) (d : KeyDevice) (m : Memory)
    → mark_key pressed_keys d m (pressed_keys + code)
      ≡ (if key_code d.keycode == code then bool_byte d.pressed else m (pressed_keys + code))
unfolding mark_key
mark_key-byte pressed_keys code d m = ground arith

mark_key-frame :
    (pressed_keys : ℕ) (d : KeyDevice) (m : Memory) (q : ℕ)
    → (q < pressed_keys) ⊎ (pressed_keys + 0x86 < q)
    → mark_key pressed_keys d m q ≡ m q
unfolding mark_key
mark_key-frame pressed_keys d m q out = ground (arith, key_code-le d.keycode)

module _ {ℓ} {S : Type ℓ} (get_device_key : S → Option KeyDevice × S) where
  -- The device reports the events and then no more.
  pub data Reports : S → List KeyDevice → S → Type ℓ where
    no_more : {s s' : S} → get_device_key s ≡ (none, s') → Reports s [] s'
    event :
        {s s' s'' : S} {d : KeyDevice} {ds : List KeyDevice}
        → get_device_key s ≡ (some d, s')
        → Reports s' ds s''
        → Reports s (d ∷ ds) s''

  -- If the device reports some events and then no more, GetKey returns in one round more than
  -- there are events. Each key then has the state of its last event, or that of before if there is
  -- none, and no byte changes but those of the keys and the one behind the array, which
  -- `KeyMaxKeys` stands for.
  pub get_key-key_after :
      (pressed_keys fuel : ℕ) {s s' : S} {ds : List KeyDevice} (m : Memory)
      → Reports s ds s'
      → length ds < fuel
      → (m' : Memory) × (get_key get_device_key pressed_keys fuel s m ≡ ok (s', m'))
        × ((code : ℕ) → m' (pressed_keys + code) ≡ key_after code ds (m (pressed_keys + code)))
        × ((q : ℕ) → (q < pressed_keys) ⊎ (pressed_keys + 0x86 < q) → m' q ≡ m q)
  unfolding get_key key_after mark_key
  get_key-key_after pressed_keys zero m r enough = absurd (omega arith)
  get_key-key_after pressed_keys (suc fuel) m (no_more e) enough =
      (m, rw (ap (λ r. r.0) e, ap (λ r. r.1) e, get_key), λ code. refl, λ q out. refl)
  get_key-key_after pressed_keys (suc fuel) m (event {d} {ds} e r) enough =
      let (m', ran, keys, same) =
        get_key-key_after pressed_keys fuel (mark_key pressed_keys d m) r (omega arith) in
      (
        m',
        rw (ap (λ r. r.0) e, ap (λ r. r.1) e, get_key) ran,
        (λ code. keys code ∙ ap (key_after code ds) (mark_key-byte pressed_keys code d m)),
        (λ q out. same q out ∙ mark_key-frame pressed_keys d m q out),
      )
