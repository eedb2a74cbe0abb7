-- ===== src/Pmm/Bitmap/Pages.antt =====
-- The bitmap as a set of pages, and what each loop does to that set.
use ann_os.Base.{
  ℕ, zero, suc, ◌+◌, ◌/◌, ◌%◌, ◌<◌, ◌≡◌, refl, ◌↔◌, ◌∙◌, Bool, true, false, ◌&&◌, ◌||◌, xor, leb,
  ltb, ◌==◌, if◌then◌else◌, arith, bit_at, bit_at-bit_or, bit_at-bit_xor, Memory, load8,
}
use ann_os.Pmm.Bitmap.{
  next_byte, next_bit, check_loop, check_if_pages_free, set_bit, map_loop, map_pages_in_bitmap,
  toggle_bit, toggle_loop, toggle_pages_in_bitmap,
}

-- Page `p` of a zone is mapped: the abstract view of the bitmap at address `bitmap`.
unfoldable pub is_mapped : Memory → ℕ → ℕ → Bool
is_mapped m bitmap p = bit_at (load8 m (bitmap + p / 8)) (p % 8)

abbrev pub in_run : ℕ → ℕ → ℕ → Bool
in_run first count p = leb first p && ltb p (first + count)

pub next_byte_eq : (p : ℕ) → next_byte (p / 8) (p % 8) ≡ suc p / 8
next_byte_eq p = ground arith

pub next_bit_eq : (p : ℕ) → next_bit (p % 8) ≡ suc p % 8
next_bit_eq p = ground arith

-- Setting one bit maps that page and no other.
is_mapped-set_bit :
    (m : Memory) (bitmap p q : ℕ)
    → is_mapped (set_bit m (bitmap + p / 8) (p % 8)) bitmap q ≡ ((p == q) || is_mapped m bitmap q)
unfolding is_mapped set_bit
is_mapped-set_bit m bitmap p q =
    ground (arith, bit_at-bit_or (load8 m (bitmap + p / 8)) (p % 8) (q % 8))

-- Toggling one bit flips that page and no other.
is_mapped-toggle_bit :
    (m : Memory) (bitmap p q : ℕ)
    → is_mapped (toggle_bit m (bitmap + p / 8) (p % 8)) bitmap q
      ≡ xor (p == q) (is_mapped m bitmap q)
unfolding is_mapped toggle_bit
is_mapped-toggle_bit m bitmap p q =
    ground (arith, bit_at-bit_xor (load8 m (bitmap + p / 8)) (p % 8) (q % 8))

check_loop_step :
    (m : Memory) (bitmap p rounds : ℕ)
    → check_loop m bitmap (p / 8) (p % 8) (suc rounds)
      ≡ (if is_mapped m bitmap p then false else check_loop m bitmap (suc p / 8) (suc p % 8) rounds)
unfolding check_loop is_mapped
check_loop_step m bitmap p rounds = rw (next_byte_eq p, next_bit_eq p)

-- The check fails at the first mapped page of the run.
check_loop_sound :
    (m : Memory) (bitmap p rounds : ℕ)
    → check_loop m bitmap (p / 8) (p % 8) rounds ≡ true
    → (i : ℕ) → i < rounds
    → is_mapped m bitmap (p + i) ≡ false
check_loop_sound m bitmap p zero h i lt = absurd (omega arith)
check_loop_sound m bitmap p (suc rounds) h zero lt =
    let e : p + 0 ≡ p = omega arith in rw e (ground (arith, check_loop_step m bitmap p rounds))
check_loop_sound m bitmap p (suc rounds) h (suc i) lt =
    let e : p + suc i ≡ suc p + i = omega arith in
    rw e (
      check_loop_sound m bitmap (suc p) rounds (ground (arith, check_loop_step m bitmap p rounds)) i
        (omega arith))

check_loop_complete :
    (m : Memory) (bitmap p rounds : ℕ)
    → ((i : ℕ) → i < rounds → is_mapped m bitmap (p + i) ≡ false)
    → check_loop m bitmap (p / 8) (p % 8) rounds ≡ true
unfolding check_loop
check_loop_complete m bitmap p zero h = refl
check_loop_complete m bitmap p (suc rounds) h =
    unfold check_loop in
    check_loop_step m bitmap p rounds ∙ rw (here, check_loop_complete m bitmap (suc p) rounds there)
  where
    here : is_mapped m bitmap p ≡ false
    here = let e : p + 0 ≡ p = omega arith in rw e at (h 0 (omega arith))

    there : (i : ℕ) → i < rounds → is_mapped m bitmap (suc p + i) ≡ false
    there i lt = let e : p + suc i ≡ suc p + i = omega arith in rw e at (h (suc i) (omega arith))

-- `CheckIfPagesFree` answers true exactly when no page of the run is mapped.
pub check_if_pages_free_iff :
    (m : Memory) (bitmap page_offset page_count : ℕ)
    → (check_if_pages_free m bitmap page_offset page_count ≡ true)
      ↔ ((i : ℕ) → i < page_count → is_mapped m bitmap (page_offset + i) ≡ false)
unfolding check_if_pages_free
check_if_pages_free_iff m bitmap page_offset page_count = (
  check_loop_sound m bitmap page_offset page_count,
  check_loop_complete m bitmap page_offset page_count,
)

map_loop_page :
    (m : Memory) (bitmap p rounds q : ℕ)
    → is_mapped (map_loop m bitmap (p / 8) (p % 8) rounds) bitmap q
      ≡ (in_run p rounds q || is_mapped m bitmap q)
unfolding map_loop
map_loop_page m bitmap p zero q = ground arith
map_loop_page m bitmap p (suc rounds) q =
    rw
      (
        next_byte_eq p,
        next_bit_eq p,
        map_loop_page (set_bit m (bitmap + p / 8) (p % 8)) bitmap (suc p) rounds q,
        is_mapped-set_bit m bitmap p q,
      )
      (ground arith)

-- `MapPagesInBitmap` maps the pages of the run, and leaves every other page as it was.
pub is_mapped-map_pages_in_bitmap :
    (m : Memory) (bitmap page_offset page_count q : ℕ)
    → is_mapped (map_pages_in_bitmap m bitmap page_offset page_count) bitmap q
      ≡ (in_run page_offset page_count q || is_mapped m bitmap q)
unfolding map_pages_in_bitmap
is_mapped-map_pages_in_bitmap m bitmap p n q = map_loop_page m bitmap p n q

toggle_loop_page :
    (m : Memory) (bitmap p rounds q : ℕ)
    → is_mapped (toggle_loop m bitmap (p / 8) (p % 8) rounds) bitmap q
      ≡ xor (in_run p rounds q) (is_mapped m bitmap q)
unfolding toggle_loop
toggle_loop_page m bitmap p zero q = ground arith
toggle_loop_page m bitmap p (suc rounds) q =
    rw
      (
        next_byte_eq p,
        next_bit_eq p,
        toggle_loop_page (toggle_bit m (bitmap + p / 8) (p % 8)) bitmap (suc p) rounds q,
        is_mapped-toggle_bit m bitmap p q,
      )
      (ground arith)

-- The loop of `UnmapPages` flips the pages of the run: a mapped one becomes free, and a free one
-- becomes mapped.
pub is_mapped-toggle_pages_in_bitmap :
    (m : Memory) (bitmap page_offset page_count q : ℕ)
    → is_mapped (toggle_pages_in_bitmap m bitmap page_offset page_count) bitmap q
      ≡ xor (in_run page_offset page_count q) (is_mapped m bitmap q)
unfolding toggle_pages_in_bitmap
is_mapped-toggle_pages_in_bitmap m bitmap p n q = toggle_loop_page m bitmap p n q
