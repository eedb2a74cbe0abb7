-- ===== src/Serial.antt =====
-- src/DebugConsole.cpp and src/include/DebugConsole.hpp: the log console on the first serial port.
-- A C string is the list of its characters before the terminator. `WriteRGB` only calls
-- `WriteVGA`.
pub mod Output
use ann_os.Base.{
  ℕ, zero, suc, ◌+◌, ◌-◌, ◌/◌, ◌%◌, ◌^◌, Bool, true, false, not, ltb, ◌==◌, if◌then◌else◌, bit_and,
  List, [], ◌∷◌, ◌++◌, codes,
}
use Prim.Native.String.{String}
use ann_os.Io.{History, Hardware, in8, out8}
use ann_os.Vga.{light_grey}

abbrev pub portno : ℕ
portno = 0x3f8

abbrev pub baud : ℕ
baud = 115200

-- The bit of the line status that says that a character can be sent.
abbrev pub empty_line : ℕ → Bool
empty_line status = not (bit_and status 0x20 == 0)

-- The `while` of `WriteChar`: whether the line was found empty within the rounds that are left.
unfoldable pub wait_line : Hardware → ℕ → History → Bool × History
wait_line hw zero h = (false, h)
wait_line hw (suc rounds) h =
    let (status, h') = in8 hw (portno + 5) h in
    let rest = wait_line hw rounds h' in if empty_line status then (true, h') else rest

-- `timeout++ > 0xfffff0` ends the loop in its round number 0xfffff2.
abbrev pub max_rounds : ℕ
max_rounds = 0xfffff2

-- With the number of rounds as an argument, 0xfffff2 in the source.
unfoldable pub write_serial_char : Hardware → ℕ → ℕ → History → History
write_serial_char hw rounds c h =
    let (empty, h') = wait_line hw rounds h in if empty then out8 portno c h' else h'

unfoldable pub write_string : Hardware → ℕ → List ℕ → History → History
write_string hw rounds [] h = h
write_string hw rounds (c ∷ cs) h = write_string hw rounds cs (write_serial_char hw rounds c h)

-- The ANSI digit of a base colour: the two number red and blue the other way round.
abbrev pub ansi_digit : ℕ → ℕ
ansi_digit color =
    if color == 1
    then b'4'
    else if color == 3
    then b'6'
    else if color == 4
    then b'1'
    else if color == 6
    then b'3'
    else b'0' + color

-- `colorStr[color]`
unfoldable pub color_str : ℕ → List ℕ
color_str color =
    if ltb color 8
    then 27 ∷ b'[' ∷ b'3' ∷ ansi_digit color ∷ b'm' ∷ []
    else 27 ∷ b'[' ∷ b'1' ∷ b';' ∷ b'3' ∷ ansi_digit (color - 8) ∷ b'm' ∷ []

abbrev pub reset_str : List ℕ
reset_str = 27 ∷ b'[' ∷ b'0' ∷ b'm' ∷ []

unfoldable pub write_serial : Hardware → ℕ → List ℕ → ℕ → History → History
write_serial hw rounds str color h =
    let plain = color == light_grey in
    let before = if plain then h else write_string hw rounds (color_str color) h in
    let written = write_string hw rounds str before in
    if plain then written else write_string hw rounds reset_str written

unfoldable pub clear_serial : Hardware → ℕ → History → History
clear_serial hw rounds h = write_string hw rounds (27 ∷ b'[' ∷ b'2' ∷ b'J' ∷ []) h

-- The port accesses of the constructor, before it writes its greeting.
unfoldable pub setup_port : History → History
setup_port h =
    let divisor = 115200 / baud % 2 ^ 16 in
    let latched = out8 (portno + 3) 0x80 (out8 (portno + 1) 0 h) in
    let timed = out8 (portno + 1) (divisor / 256) (out8 portno (divisor % 256) latched) in
    out8 (portno + 2) 0x87 (out8 (portno + 3) 0x3 timed)

-- The two texts of the greeting.
abbrev pub title : String
title = "\n\n \u{1b}[1m-[annOS]-\u{1b}[0m \n"

abbrev pub greeting : String
greeting =
    "Serial log console started: \u{1b}[38;5;74m115200\u{1b}[0m baud, \u{1b}[38;5;74m8n1\u{1b}[0m\n"

-- The constructor.
unfoldable pub new_serial : Hardware → ℕ → History → History
new_serial hw rounds h =
    write_string hw rounds (codes greeting) (write_string hw rounds (codes title) (setup_port h))
