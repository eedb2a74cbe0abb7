-- ===== src/Pmm/Bitmap/Frame.antt =====
-- The bytes that a loop over the bitmap leaves alone.
use ann_os.Base.{ℕ, zero, suc, ◌+◌, ◌/◌, ◌%◌, ◌≤◌, ◌<◌, ◌≡◌, refl, ◌⊎◌, arith, Memory}
use ann_os.Pmm.Bitmap.{
  set_bit, map_loop, map_pages_in_bitmap, toggle_bit, toggle_loop, toggle_pages_in_bitmap,
}
use ann_os.Pmm.Bitmap.Pages.{next_byte_eq, next_bit_eq}

-- Address `a` lies outside the bytes of pages `p` to `p + n - 1`.
abbrev pub Outside : ℕ → ℕ → ℕ → ℕ → Type 0
Outside bitmap p n a = (a < bitmap + p / 8) ⊎ (bitmap + (p + n + 7) / 8 ≤ a)

map_loop-frame :
    (m : Memory) (bitmap p rounds a : ℕ)
    → Outside bitmap p rounds a
    → map_loop m bitmap (p / 8) (p % 8) rounds a ≡ m a
unfolding map_loop
map_loop-frame m bitmap p zero a h = refl
map_loop-frame m bitmap p (suc rounds) a h =
    rw
      (
        next_byte_eq p,
        next_bit_eq p,
        map_loop-frame (set_bit m (bitmap + p / 8) (p % 8)) bitmap (suc p) rounds a (omega arith),
      )
      (unfold set_bit in ground arith)

-- `MapPagesInBitmap` writes only bytes that hold a bit of the run.
pub map_pages_in_bitmap-frame :
    (m : Memory) (bitmap p n a : ℕ)
    → Outside bitmap p n a
    → map_pages_in_bitmap m bitmap p n a ≡ m a
unfolding map_pages_in_bitmap
map_pages_in_bitmap-frame m bitmap p n a h = map_loop-frame m bitmap p n a h

toggle_loop-frame :
    (m : Memory) (bitmap p rounds a : ℕ)
    → Outside bitmap p rounds a
    → toggle_loop m bitmap (p / 8) (p % 8) rounds a ≡ m a
unfolding toggle_loop
toggle_loop-frame m bitmap p zero a h = refl
toggle_loop-frame m bitmap p (suc rounds) a h =
    rw
      (
        next_byte_eq p,
        next_bit_eq p,
        toggle_loop-frame (toggle_bit m (bitmap + p / 8) (p % 8)) bitmap (suc p) rounds a
            (omega arith),
      )
      (unfold toggle_bit in ground arith)

pub toggle_pages_in_bitmap-frame :
    (m : Memory) (bitmap p n a : ℕ)
    → Outside bitmap p n a
    → toggle_pages_in_bitmap m bitmap p n a ≡ m a
unfolding toggle_pages_in_bitmap
toggle_pages_in_bitmap-frame m bitmap p n a h = toggle_loop-frame m bitmap p n a h
