-- ===== src/Keyboard.antt =====
-- src/KeyboardDevice.cpp, src/Device.cpp and their headers: devices, and keyboards among them. The
-- array `pressed_keys` of the object stands at an address of the memory, so that a write behind it
-- is told from one inside.
pub mod Pressed
mod Tests
use ann_os.Base.{
  ℕ, zero, suc, ◌+◌, ◌*◌, ◌^◌, Bool, true, false, ◌==◌, if◌then◌else◌, Option, none, some, Memory,
  store8, Outcome, ok, running,
}

-- `class Device`: the addresses of its two names.
pub record Device : Type 0 where
  pub tag : ℕ
  pub name : ℕ

-- `enum DeviceIoctl`
abbrev pub device_get_tag : ℕ
device_get_tag = 1

abbrev pub device_get_name : ℕ
device_get_name = 2

-- `Device::ProcessIoctl`: the `int` that it returns, and `*ret` afterwards.
unfoldable pub process_ioctl : Device → ℕ → ℕ → ℕ × ℕ
process_ioctl device function_name ret =
    if function_name == device_get_tag
    then (0, device.tag)
    else if function_name == device_get_name
    then (0, device.name)
    else (0xffffffff, ret)

-- `enum KeyCode`
pub data KeyCode : Type 0 where
  key_null : KeyCode
  key_a key_b key_c key_d key_e key_f key_g key_h key_i key_j key_k key_l key_m : KeyCode
  key_n key_o key_p key_q key_r key_s key_t key_u key_v key_w key_x key_y key_z : KeyCode
  key_1 key_2 key_3 key_4 key_5 key_6 key_7 key_8 key_9 key_0 : KeyCode
  key_slash key_minus key_plus key_enter key_space key_super : KeyCode
  key_caps_lock key_num_lock key_scroll_lock key_ctrl key_alt key_shift : KeyCode
  key_max_keys : KeyCode

abbrev pub key_code : KeyCode → ℕ
key_code key_null = 0
key_code key_a = 1
key_code key_b = 2
key_code key_c = 3
key_code key_d = 4
key_code key_e = 5
key_code key_f = 6
key_code key_g = 7
key_code key_h = 8
key_code key_i = 9
key_code key_j = 10
key_code key_k = 11
key_code key_l = 12
key_code key_m = 13
key_code key_n = 14
key_code key_o = 15
key_code key_p = 16
key_code key_q = 17
key_code key_r = 18
key_code key_s = 19
key_code key_t = 20
key_code key_u = 21
key_code key_v = 22
key_code key_w = 23
key_code key_x = 24
key_code key_y = 25
key_code key_z = 26
key_code key_1 = 27
key_code key_2 = 28
key_code key_3 = 29
key_code key_4 = 30
key_code key_5 = 31
key_code key_6 = 32
key_code key_7 = 33
key_code key_8 = 34
key_code key_9 = 35
key_code key_0 = 36
key_code key_slash = 37
key_code key_minus = 38
key_code key_plus = 39
key_code key_enter = 40
key_code key_space = 41
key_code key_super = 42
key_code key_caps_lock = 0x80
key_code key_num_lock = 0x81
key_code key_scroll_lock = 0x82
key_code key_ctrl = 0x83
key_code key_alt = 0x84
key_code key_shift = 0x85
key_code key_max_keys = 0x86

-- `struct KeyDevice`
pub record KeyDevice : Type 0 where
  pub keycode : KeyCode
  pub pressed : Bool
  pub hw_keycode : ℕ

abbrev pub bool_byte : Bool → ℕ
bool_byte pressed = if pressed then 1 else 0

-- `pressed_keys[key] = d.pressed`, with the array at `pressed_keys`.
unfoldable pub mark_key : ℕ → KeyDevice → Memory → Memory
mark_key pressed_keys d m = store8 m (pressed_keys + key_code d.keycode) (bool_byte d.pressed)

-- `KeyboardDevice::GetKey`, in the rounds given. `get_device_key` is that of the device: `none` for
-- false. The argument `key` is not used, and no value is returned.
module _ {ℓ} {S : Type ℓ} (get_device_key : S → Option KeyDevice × S) (pressed_keys : ℕ) where
  unfoldable pub get_key : ℕ → S → Memory → Outcome (S × Memory)
  get_key zero s m = running
  get_key (suc fuel) s m =
      let (event, s') = get_device_key s in
      elim event [ none ↦ ok (s', m) | some d ↦ get_key fuel s' (mark_key pressed_keys d m) ]

-- `PS2::GetDeviceKey` of src/include/arch/x86/PS2.hpp.
unfoldable pub ps2_get_device_key {ℓ} : {S : Type ℓ} → S → Option KeyDevice × S
ps2_get_device_key s = (none, s)
