-- ===== src/Vga.antt =====
-- src/VGAConsole.cpp, src/include/VGAConsole.hpp and the colours of src/include/Console.hpp: the
-- text console. The framebuffer and the strings are bytes of one memory; a 16-bit cell is stored
-- low byte first. Neither reaches the end of the address space, so addresses do not wrap around
-- here. `WriteRGB` is empty.
pub mod Screen
pub mod Scrolling
pub mod Escapes
mod Tests
use ann_os.Base.{
  ℕ, zero, suc, ◌+◌, ◌-◌, ◌*◌, ◌/◌, ◌%◌, ◌^◌, Bool, true, false, ltb, leb, ◌==◌, if◌then◌else◌,
  bit_or, Memory, load8, store8, Option, none, some, Outcome, ok, running,
}
use ann_os.Io.{History, out8}
use ann_os.Libk.Mem.{memcpy}

-- `enum BaseColors`, the eight that the escape sequences name.
abbrev pub black : ℕ
black = 0

abbrev pub light_grey : ℕ
light_grey = 7

abbrev pub framebuffer : ℕ
framebuffer = 0xb8000

abbrev pub width : ℕ
width = 80

abbrev pub height : ℕ
height = 25

-- `_xPos` and `_yPos` are bytes.
pub record Console : Type 0 where
  pub mem : Memory
  pub ports : History
  pub x_pos : ℕ
  pub y_pos : ℕ

-- `_framebuffer[index] = value`
unfoldable pub put_cell : Memory → ℕ → ℕ → Memory
put_cell m index value =
    store8 (store8 m (framebuffer + index * 2) value) (framebuffer + index * 2 + 1)
      (value % 2 ^ 16 / 256)

unfoldable pub update_cursor : ℕ → ℕ → ℕ → History → History
update_cursor x y w h =
    let pos = (y * w + x) % 2 ^ 16 in
    out8 0x3d5 (pos / 256) (out8 0x3d4 0x0e (out8 0x3d5 (pos % 256) (out8 0x3d4 0x0f h)))

-- A blank cell: a space, white on black.
abbrev pub blank_cell : ℕ
blank_cell = 0x0720

-- Fills `rounds` cells from `index` on with blanks.
unfoldable pub blank_cells : ℕ → Memory → ℕ → Memory
blank_cells zero m index = m
blank_cells (suc rounds) m index = blank_cells rounds (put_cell m index blank_cell) (index + 1)

-- Copies row `y` to the row above it, for `rounds` rows from `y` on.
unfoldable pub scroll_rows : ℕ → Memory → ℕ → Memory
scroll_rows zero m y = m
scroll_rows (suc rounds) m y =
    scroll_rows rounds
      (memcpy m (framebuffer + (y - 1) * width * 2) (framebuffer + y * width * 2) (width * 2))
      (y + 1)

unfoldable pub scroll : Memory → Memory
scroll m = blank_cells width (scroll_rows (height - 1) m 1) ((height - 1) * width)

unfoldable pub clear : Console → Console
clear v = record v { mem = blank_cells (width * height) v.mem 0; x_pos = 0; y_pos = 0 }

-- `(uint16_t)c | ((uint16_t)color << 8)`: a `char` from 128 on is negative and fills the high byte.
unfoldable pub cell_of : ℕ → ℕ → ℕ → ℕ
cell_of c fgcolor bgcolor =
    let color = bit_or (fgcolor % 256) (bgcolor % 256 * 16) % 256 in
    bit_or (if ltb c 128 then c else 0xff00 + c) (color * 256)

-- `_xPos += 4; _xPos = ((_xPos >> 2) << 2);`
abbrev pub tab_stop : ℕ → ℕ
tab_stop x = (x + 4) % 256 / 4 * 4

-- The position and the memory after the character itself.
unfoldable pub place_char : ℕ → ℕ → ℕ → Console → Console
place_char c fgcolor bgcolor v =
    if c == 10
    then record v { x_pos = 0; y_pos = (v.y_pos + 1) % 256 }
    else if c == 9
    then (if ltb width (tab_stop v.x_pos)
        then record v { x_pos = 0; y_pos = (v.y_pos + 1) % 256 }
        else record v { x_pos = tab_stop v.x_pos })
    else record v {
      mem = put_cell v.mem (v.y_pos * width + v.x_pos) (cell_of c fgcolor bgcolor);
      x_pos = (v.x_pos + 1) % 256;
    }

unfoldable pub wrap_line : Console → Console
wrap_line v = if leb width v.x_pos then record v { x_pos = 0; y_pos = (v.y_pos + 1) % 256 } else v

unfoldable pub wrap_screen : Console → Console
wrap_screen v =
    if leb height v.y_pos then record v { mem = scroll v.mem; y_pos = height - 1 } else v

unfoldable pub write_char : ℕ → ℕ → ℕ → Console → Console
write_char c fgcolor bgcolor v = wrap_screen (wrap_line (place_char c fgcolor bgcolor v))

-- The colour of a digit in an escape sequence; other characters keep the old colour.
unfoldable pub digit_color : ℕ → ℕ → ℕ
digit_color c old =
    if c == b'0'
    then 0
    else if c == b'1'
    then 4
    else if c == b'2'
    then 2
    else if c == b'3'
    then 6
    else if c == b'4'
    then 1
    else if c == b'5'
    then 5
    else if c == b'6'
    then 3
    else if c == b'7'
    then 7
    else old

-- Where an escape sequence ends, and the foreground and background that it sets.
pub record Escape : Type 0 where
  pub next : ℕ
  pub setcolor : ℕ
  pub backcolor : ℕ

-- One round of the `switch` on the character `c`, before `digit`, other than the end `m`.
unfoldable pub escape_step : ℕ → ℕ → ℕ → Escape → Escape
escape_step c digit color e =
    if c == b'0'
    then record e { next = e.next + 1; setcolor = color; backcolor = black }
    else if c == b'1'
    then record e { next = e.next + 1; setcolor = e.setcolor + 8 }
    else if c == b'3'
    then record e {
      next = e.next + 2;
      setcolor =
          if leb 8 e.setcolor
          then digit_color digit e.setcolor + 8
          else digit_color digit e.setcolor;
    }
    else if c == b'4'
    then record e { next = e.next + 2; backcolor = digit_color digit e.backcolor }
    else record e { next = e.next + 1 }

-- The loop `while (escape_in)` from `e.next` on. `color` is the argument of `WriteVGA`.
unfoldable pub escape_loop : ℕ → Memory → ℕ → Escape → Option Escape
escape_loop zero m color e = none
escape_loop (suc fuel) m color e = elim (load8 m e.next == b'm') [
  | true ↦ some (record e { next = e.next + 1 })
  | false ↦ escape_loop fuel m color (escape_step (load8 m e.next) (load8 m (e.next + 1)) color e)
]

-- The loop of `WriteVGA` from the address `e.next` on. What follows an escape sequence is written
-- as a character, whatever it is.
unfoldable pub write_loop : ℕ → ℕ → Escape → Console → Outcome Console
write_loop zero color e v = running
write_loop (suc fuel) color e v =
    let c = load8 v.mem e.next in
    elim (c == 0) [
      | true ↦ ok v
      | false ↦ elim (c == 27) [
        | false ↦
            write_loop fuel color (record e { next = e.next + 1 })
              (write_char c e.setcolor e.backcolor v)
        | true ↦ elim (escape_loop fuel v.mem color (record e { next = e.next + 1 })) [
          | none ↦ running
          | some e' ↦
              write_loop fuel color (record e' { next = e'.next + 1 })
                (write_char (load8 v.mem e'.next) e'.setcolor e'.backcolor v)
        ]
      ]
    ]

abbrev pub with_cursor : Outcome Console → Outcome Console
with_cursor (ok v) = ok (record v { ports = update_cursor v.x_pos v.y_pos width v.ports })
with_cursor other = other

unfoldable pub write_vga : ℕ → ℕ → ℕ → Console → Outcome Console
write_vga fuel str color v =
    with_cursor
      (write_loop fuel color (record { next = str; setcolor = color; backcolor = black }) v)
