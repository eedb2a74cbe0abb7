-- ===== src/Vga/Tests.antt =====
-- The theorems on the text console at concrete inputs.
use ann_os.Base.{ℕ, ◌≡◌, refl, ◌==◌, if◌then◌else◌, arith, Memory, ok, [], ◌∷◌}
use ann_os.Vga.{Console, Escape, black, width, update_cursor, write_char, write_vga, with_cursor}
use ann_os.Vga.Screen.{IsOnScreen, write_char-IsOnScreen, write_vga-IsOnScreen}
use ann_os.Vga.Escapes.{write_all, write_vga-PlainText}

-- `ok` at 0x1000 and `ESC [ m` at 0x2000.
abbrev text : Memory
text a =
    if a == 0x1000
    then b'o'
    else if a == 0x1001
    then b'k'
    else if a == 0x2000
    then 27
    else if a == 0x2001
    then b'['
    else if a == 0x2002
    then b'm'
    else 0

-- The cursor on the last cell.
abbrev last_cell : Console
last_cell = record { mem = text; ports = []; x_pos = 79; y_pos = 24 }

write_char-IsOnScreen_example : IsOnScreen (write_char b'a' 7 0 last_cell)
write_char-IsOnScreen_example = write_char-IsOnScreen b'a' 7 0 last_cell (omega arith)

write_vga-PlainText_example :
    write_vga 3 0x1000 7 last_cell
    ≡ with_cursor (ok (write_all (b'o' ∷ b'k' ∷ []) 7 black last_cell))
write_vga-PlainText_example =
    write_vga-PlainText (b'o' ∷ b'k' ∷ []) 0x1000 7 last_cell (omega arith) (omega arith)
      (refl, omega arith, refl, omega arith, (refl, omega arith, refl, omega arith, refl))

write_vga-IsOnScreen_example : IsOnScreen (record (write_all (b'o' ∷ b'k' ∷ []) 7 black last_cell) {
  ports =
      update_cursor
        (write_all (b'o' ∷ b'k' ∷ []) 7 black last_cell).x_pos
        (write_all (b'o' ∷ b'k' ∷ []) 7 black last_cell).y_pos
        width
        (write_all (b'o' ∷ b'k' ∷ []) 7 black last_cell).ports;
})
write_vga-IsOnScreen_example =
    write_vga-IsOnScreen 3 0x1000 7 last_cell (omega arith) write_vga-PlainText_example

abbrev escape_at : ℕ → Escape
escape_at p = record { next = p; setcolor = 7; backcolor = 0 }
