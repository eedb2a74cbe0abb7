-- ===== src/Vga/Scrolling.antt =====
-- What scrolling does to the framebuffer, and that nothing else is written.
use ann_os.Base.{
  ℕ, zero, suc, ◌+◌, ◌-◌, ◌*◌, ◌%◌, ◌≤◌, ◌<◌, ◌≡◌, ap, ◌⊎◌, ◌&&◌, ◌==◌, if◌then◌else◌, leb, ltb,
  arith, Memory, load8,
}
use ann_os.Libk.Mem.{memcpy}
use ann_os.Libk.Mem.Laws.{load8-memcpy}
use ann_os.Vga.Screen.{IsOnScreen}
use ann_os.Vga.{
  Console, framebuffer, width, height, put_cell, blank_cells, scroll_rows, scroll, place_char,
  wrap_line, wrap_screen, write_char, cell_of,
}

put_cell-other :
    (m : Memory) (index value a : ℕ)
    → (a < framebuffer + index * 2) ⊎ (framebuffer + index * 2 + 2 ≤ a)
    → load8 (put_cell m index value) a ≡ load8 m a
unfolding put_cell
put_cell-other m index value a h = ground arith

put_cell-blank :
    (m : Memory) (index a : ℕ)
    → framebuffer + index * 2 ≤ a
    → a < framebuffer + index * 2 + 2
    → load8 (put_cell m index 0x0720) a ≡ (if a % 2 == 0 then 0x20 else 0x07)
unfolding put_cell
put_cell-blank m index a low high = ground arith

-- The cells from `index` on hold blanks, and other bytes are as they were.
load8-blank_cells :
    (rounds : ℕ) (m : Memory) (index a : ℕ)
    → load8 (blank_cells rounds m index) a ≡ (
        if leb (framebuffer + index * 2) a && ltb a (framebuffer + (index + rounds) * 2)
        then (if a % 2 == 0 then 0x20 else 0x07)
        else load8 m a)
unfolding blank_cells
load8-blank_cells zero m index a = ground arith
load8-blank_cells (suc rounds) m index a =
    rw (load8-blank_cells rounds (put_cell m index 0x0720) (index + 1) a)
      (ground (arith, put_cell-other m index 0x0720 a, put_cell-blank m index a))

row_copied :
    (m : Memory) (dest a : ℕ)
    → load8 (memcpy m dest (dest + 160) 160) a
      ≡ (if leb dest a && ltb a (dest + 160) then load8 m (a + 160) else load8 m a)
row_copied m dest a =
    rw (load8-memcpy m dest (dest + 160) 160 a (omega arith)) (ground (arith, shifted))
  where
    shifted : dest ≤ a → m (dest + 160 + (a - dest)) ≡ m (a + 160)
    shifted le = ap m (omega arith)

-- After `rounds` rows from row `y + 1` on, each byte of the rows from `y` on is the one 160
-- further.
load8-scroll_rows :
    (rounds : ℕ) (m : Memory) (y a : ℕ)
    → load8 (scroll_rows rounds m (suc y)) a ≡ (
        if leb (framebuffer + y * 160) a && ltb a (framebuffer + (y + rounds) * 160)
        then load8 m (a + 160)
        else load8 m a)
unfolding scroll_rows
load8-scroll_rows zero m y a = ground arith
load8-scroll_rows (suc rounds) m y a =
    let dest : framebuffer + (suc y - 1) * width * 2 ≡ framebuffer + y * 160 = omega arith in
    let src : framebuffer + suc y * width * 2 ≡ framebuffer + y * 160 + 160 = omega arith in
    let next : suc y + 1 ≡ suc (suc y) = omega arith in
    let m' = memcpy m (framebuffer + y * 160) (framebuffer + y * 160 + 160) 160 in
    rw (dest, src, next, load8-scroll_rows rounds m' (suc y) a)
      (ground (
        arith,
        row_copied m (framebuffer + y * 160) a,
        row_copied m (framebuffer + y * 160) (a + 160),
      ))

-- Scrolling moves every row up by one, puts blanks on the last row, and writes nothing else.
load8-scroll :
    (m : Memory) (a : ℕ)
    → load8 (scroll m) a ≡ (
        if leb framebuffer a && ltb a (framebuffer + 24 * 160)
        then load8 m (a + 160)
        else if leb framebuffer a && ltb a (framebuffer + 25 * 160)
        then (if a % 2 == 0 then 0x20 else 0x07)
        else load8 m a)
unfolding scroll
load8-scroll m a =
    rw (load8-blank_cells width (scroll_rows (height - 1) m 1) ((height - 1) * width) a)
      (ground (arith, load8-scroll_rows 24 m 0 a))

-- An address outside the framebuffer.
abbrev pub Elsewhere : ℕ → Type 0
Elsewhere a = (a < framebuffer) ⊎ (framebuffer + width * height * 2 ≤ a)

place_char-Elsewhere :
    (c fgcolor bgcolor a : ℕ) (v : Console)
    → IsOnScreen v
    → Elsewhere a
    → load8 (place_char c fgcolor bgcolor v).mem a ≡ load8 v.mem a
unfolding place_char
place_char-Elsewhere c fgcolor bgcolor a v on out = ground (
  arith,
  put_cell-other v.mem (v.y_pos * width + v.x_pos) (cell_of c fgcolor bgcolor) a,
  on.column,
  on.row,
)

-- With the cursor on the screen, `WriteChar` writes no byte outside the framebuffer.
pub write_char-Elsewhere :
    (c fgcolor bgcolor a : ℕ) (v : Console)
    → IsOnScreen v
    → Elsewhere a
    → load8 (write_char c fgcolor bgcolor v).mem a ≡ load8 v.mem a
unfolding write_char wrap_line wrap_screen
write_char-Elsewhere c fgcolor bgcolor a v on out = ground (
  arith,
  place_char-Elsewhere c fgcolor bgcolor a v on out,
  load8-scroll (place_char c fgcolor bgcolor v).mem a,
)
