-- ===== src/Ps2.antt =====
-- src/arch/x86/PS2.cpp and src/include/arch/x86/PS2.hpp: the 8042 keyboard controller.
pub mod Commands
pub mod Enabling
mod Tests
use ann_os.Base.{
  ℕ, zero, suc, ◌+◌, ◌*◌, ◌%◌, ◌^◌, Bool, true, false, not, ltb, leb, ◌==◌, ◌&&◌, ◌||◌,
  if◌then◌else◌, bit_and, bit_or, Outcome, ok, running, ◌>>=◌,
}
use ann_os.Io.{History, Hardware, in8, out8}

abbrev pub data_port : ℕ
data_port = 0x60

-- The same port is `STATUS_REG` when it is read and `COMMAND_REG` when it is written.
abbrev pub command_reg : ℕ
command_reg = 0x64

abbrev pub is_full : ℕ → Bool
is_full status = not (bit_and status 0x1 == 0)

abbrev pub is_acknowledge : ℕ → Bool
is_acknowledge res = (res == 0xaa) || (res == 0xfa)

module _ (hw : Hardware) where
  -- The flush of results from other commands.
  unfoldable pub flush : ℕ → History → Outcome History
  flush zero h = running
  flush (suc fuel) h =
      let (status, h1) = in8 hw command_reg h in
      let rest = flush fuel ((in8 hw data_port h1).1) in if is_full status then rest else ok h1

  -- The prefix for the second port.
  abbrev pub select : ℕ → History → History
  select port h = if port == 2 then out8 command_reg 0xd4 h else h

  -- The wait for an answer, with `left` rounds until `timeout` is 20.
  unfoldable pub poll : ℕ → History → Bool × History
  poll zero h = let (status, h1) = in8 hw command_reg h in (is_full status, h1)
  poll (suc left) h =
      let (status, h1) = in8 hw command_reg h in
      let rest = poll left h1 in if is_full status then (true, h1) else rest

  -- The answer, when there is one.
  unfoldable pub answer : Bool × History → Bool × History
  answer (false, h) = (false, h)
  answer (true, h) = let (res, h1) = in8 hw data_port h in (is_acknowledge res, h1)

  -- `SendCommand`, with a `value` of 0 for any that is not positive.
  unfoldable pub send_command : ℕ → ℕ → ℕ → ℕ → History → Outcome (Bool × History)
  send_command fuel code port value h = do
    h1 ← flush fuel h
    let h2 = out8 data_port code (select port h1)
    let h3 = if ltb 0 value then out8 data_port value h2 else h2
    ok (answer (poll 20 h3))

  -- The byte of a further answer, if there is one: whether the reset goes on.
  abbrev pub further : (ℕ → Bool) → History → Bool × History
  further expected h =
      let (status, h1) = in8 hw command_reg h in
      let (res, h2) = in8 hw data_port h1 in
      if is_full status then (expected res, h2) else (true, h1)

  -- The answers to a reset.
  unfoldable pub reset_answers : History → Bool × History
  reset_answers h =
      let (res, h1) = in8 hw data_port h in
      let (second, h2) = further is_acknowledge h1 in
      if not (is_acknowledge res)
      then (false, h1)
      else if not second
      then (false, h2)
      else further (λ r. r == 0) h2

  -- `Reset` of a port.
  unfoldable pub reset_port : ℕ → ℕ → History → Outcome (Bool × History)
  reset_port fuel port h = do
    h1 ← flush fuel h
    ok (reset_answers (out8 data_port 0xff (select port h1)))

  unfoldable pub read_times : ℕ → History → History
  read_times zero h = h
  read_times (suc n) h = read_times n ((in8 hw data_port h).1)

  -- The number of channels, by the configuration byte.
  abbrev pub channels : ℕ → ℕ
  channels ccb = if not (bit_and ccb 0x20 == 0) then 2 else 1

  -- A controller command whose result is only logged.
  abbrev pub self_test : ℕ → History → History
  self_test code h = (in8 hw data_port (out8 command_reg code h)).1

  -- Steps 1 to 5 of `Initialize`: `max_channels`, and the history.
  unfoldable pub configure : History → ℕ × History
  configure h =
      let disabled = out8 command_reg 0xa7 (out8 command_reg 0xad h) in
      let (ccb, h1) = in8 hw data_port (out8 command_reg 0x20 (read_times 16 disabled)) in
      let h2 = out8 data_port (bit_and ccb 0xbc) (out8 command_reg 0x60 h1) in
      let h3 = self_test 0xab (self_test 0xaa h2) in
      (channels ccb, (if leb 2 (channels ccb) then self_test 0xa9 h3 else h3))

  -- Step 6.
  unfoldable pub reset_devices : ℕ → ℕ → History → Outcome History
  reset_devices fuel max_channels h = do
    (_, h1) ← reset_port fuel 1 h
    if leb 2 max_channels then (reset_port fuel 2 h1 >>= λ (_, h2). ok h2) else ok h1

  -- Step 7 for a port: the type of the device is one byte, or two.
  unfoldable pub identify : ℕ → ℕ → History → Outcome (ℕ × History)
  identify fuel port h = do
    (_, h1) ← send_command fuel 0xf5 port 0 h
    (_, h2) ← send_command fuel 0xf2 port 0 h1
    let (low, h3) = in8 hw data_port h2
    let (high, h4) = in8 hw data_port h3
    ok (if ltb 0x80 low then (low + high * 2 ^ 8, h4) else (low, h3))

  unfoldable pub init_keyboard : ℕ → History → Outcome History
  init_keyboard fuel h = do
    (_, h1) ← send_command fuel 0xf0 1 2 h
    (_, h2) ← send_command fuel 0xf4 1 0 h1
    ok h2

  -- The end of `Initialize`: interrupts and ports are enabled.
  unfoldable pub enable : ℕ → History → History
  enable max_channels h =
      let (ccb, h1) = in8 hw data_port (out8 command_reg 0x20 h) in
      let h2 = out8 data_port (bit_or ccb 0x3) (out8 command_reg 0x60 h1) in
      let h3 = out8 command_reg 0xae h2 in
      if max_channels == 2 then out8 command_reg 0xa8 h3 else h3

  -- `Initialize`: `max_channels`, and the history.
  unfoldable pub initialize_ps2 : ℕ → History → Outcome (ℕ × History)
  initialize_ps2 fuel h = do
    let (max_channels, h1) = configure h
    h2 ← reset_devices fuel max_channels h1
    (_, h3) ← identify fuel 1 h2
    (_, h4) ← identify fuel 2 h3
    h5 ← init_keyboard fuel h4
    (_, h6) ← send_command fuel 0xf4 2 0 h5
    ok (max_channels, enable max_channels h6)

  -- `OnIRQ`: the accesses for the line `irq_no`. What was read is only logged.
  unfoldable pub on_irq : ℕ → History → History
  on_irq irq_no h =
      if irq_no == 1 then (in8 hw data_port h).1 else if irq_no == 12 then read_times 2 h else h
