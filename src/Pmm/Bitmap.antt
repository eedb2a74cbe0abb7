-- ===== src/Pmm/Bitmap.antt =====
-- The three loops of src/PMM.cpp over a zone's bitmap: `CheckIfPagesFree`, `MapPagesInBitmap` and
-- the toggling loop of `UnmapPages`. Each keeps a byte and a bit offset and steps both.
-- A bitmap lies below the end of the address space, so the addresses of its bytes do not wrap.
pub mod Pages
pub mod Frame
use ann_os.Base.{
  ℕ, zero, suc, ◌+◌, ◌/◌, ◌%◌, ◌^◌, Bool, true, false, leb, if◌then◌else◌, bit_or, bit_xor, bit_at,
  Memory, load8, store8,
}

-- `bit_offset++`, and to the next byte when it reaches 8. Offsets stay below 2 ^ 30.
abbrev pub next_byte : ℕ → ℕ → ℕ
next_byte byte_offset bit_offset = if leb 8 (bit_offset + 1) then byte_offset + 1 else byte_offset

abbrev pub next_bit : ℕ → ℕ
next_bit bit_offset = if leb 8 (bit_offset + 1) then 0 else bit_offset + 1

-- The loops count the rounds that are left.
unfoldable pub check_loop : Memory → ℕ → ℕ → ℕ → ℕ → Bool
check_loop m bitmap byte_offset bit_offset zero = true
check_loop m bitmap byte_offset bit_offset (suc rounds) =
    let rest =
      check_loop m bitmap (next_byte byte_offset bit_offset) (next_bit bit_offset) rounds in
    if bit_at (load8 m (bitmap + byte_offset)) bit_offset then false else rest

unfoldable pub check_if_pages_free : Memory → ℕ → ℕ → ℕ → Bool
check_if_pages_free m bitmap page_offset page_count =
    check_loop m bitmap (page_offset / 8) (page_offset % 8) page_count

-- `bitmap[byte_offset] |= (1 << bit_offset)`
unfoldable pub set_bit : Memory → ℕ → ℕ → Memory
set_bit m address bit_offset = store8 m address (bit_or (load8 m address) (2 ^ bit_offset))

unfoldable pub map_loop : Memory → ℕ → ℕ → ℕ → ℕ → Memory
map_loop m bitmap byte_offset bit_offset zero = m
map_loop m bitmap byte_offset bit_offset (suc rounds) =
    map_loop (set_bit m (bitmap + byte_offset) bit_offset) bitmap (next_byte byte_offset bit_offset)
      (next_bit bit_offset) rounds

unfoldable pub map_pages_in_bitmap : Memory → ℕ → ℕ → ℕ → Memory
map_pages_in_bitmap m bitmap page_offset page_count =
    map_loop m bitmap (page_offset / 8) (page_offset % 8) page_count

-- `bitmap[byte_offset] ^= (1 << bit_offset)`
unfoldable pub toggle_bit : Memory → ℕ → ℕ → Memory
toggle_bit m address bit_offset = store8 m address (bit_xor (load8 m address) (2 ^ bit_offset))

unfoldable pub toggle_loop : Memory → ℕ → ℕ → ℕ → ℕ → Memory
toggle_loop m bitmap byte_offset bit_offset zero = m
toggle_loop m bitmap byte_offset bit_offset (suc rounds) =
    toggle_loop (toggle_bit m (bitmap + byte_offset) bit_offset) bitmap
      (next_byte byte_offset bit_offset) (next_bit bit_offset) rounds

unfoldable pub toggle_pages_in_bitmap : Memory → ℕ → ℕ → ℕ → Memory
toggle_pages_in_bitmap m bitmap page_offset page_count =
    toggle_loop m bitmap (page_offset / 8) (page_offset % 8) page_count
