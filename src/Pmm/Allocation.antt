-- ===== src/Pmm/Allocation.antt =====
-- `PMM::AllocatePhysical` of src/PMM.cpp.
pub mod Search
pub mod Pages
pub mod Limits
use ann_os.Base.{
  ℕ, zero, suc, ◌+◌, ◌-◌, ◌*◌, ◌/◌, ◌%◌, ◌||◌, not, Bool, leb, ◌==◌, if◌then◌else◌, bit_and, add32,
  sub32, mul32, set, Option, none, some, List, [], ◌∷◌, Memory, Outcome, ok, panic, running,
}
use ann_os.Pmm.{PmmZone, Pmm, phys_page_size, mmio}
use ann_os.Pmm.Bitmap.{check_if_pages_free, map_pages_in_bitmap}

-- The inner `while`: the first page offset from `page_offset` on at which `n` pages are free, or
-- `none` if no run is found in `fuel` rounds. The `continue` under `exhausted mmap zone` belongs
-- to this loop, not to the loop over the zones, so it only skips to the next test.
unfoldable pub search : ℕ → Memory → ℕ → ℕ → ℕ → Option ℕ
search zero m bitmap page_offset n = none
search (suc fuel) m bitmap page_offset n =
    let rest = search fuel m bitmap (add32 page_offset 1) n in
    if check_if_pages_free m bitmap page_offset n then some page_offset else rest

-- The page offset of the zone's first free address.
abbrev pub first_offset : PmmZone → ℕ
first_offset zone = sub32 zone.first_free_addr zone.start / phys_page_size

-- The three tests that pass to the next zone: another type, a full zone, a run too long.
unfoldable pub skips : PmmZone → ℕ → ℕ → Bool
skips zone n type =
    (bit_and zone.type type == 0)
    || (leb (add32 zone.start (mul32 zone.pagecount phys_page_size)) zone.first_free_addr
        || leb zone.pagecount (add32 (first_offset zone) n))

-- `zone->start + (page_offset * PHYS_PAGE_SIZE)`
abbrev pub page_address : PmmZone → ℕ → ℕ
page_address zone offset = add32 zone.start (mul32 offset phys_page_size)

unfoldable pub take_run : Pmm → ℕ → PmmZone → ℕ → ℕ → Pmm
take_run pmm i zone n offset = record pmm {
  mmap =
      set pmm.mmap i (record zone {
        first_free_addr = add32 (page_address zone offset) (mul32 n phys_page_size);
      });
  mem = map_pages_in_bitmap pmm.mem zone.alloc_bitmap offset n;
}

unfoldable pub allocate_in : ℕ → Pmm → ℕ → PmmZone → ℕ → Outcome (ℕ × Pmm)
allocate_in fuel pmm i zone n = elim (search fuel pmm.mem zone.alloc_bitmap (first_offset zone) n) [
  | none ↦ running
  | some offset ↦ ok (page_address zone offset, take_run pmm i zone n offset)
]

-- The loop over the zones, from zone `i` on.
unfoldable pub allocate_from : ℕ → Pmm → List PmmZone → ℕ → ℕ → ℕ → Outcome (ℕ × Pmm)
allocate_from fuel pmm [] i n type =
    panic "pmm: AllocatePhysical: phys memory exhausted, no suitable zones"
allocate_from fuel pmm (zone ∷ zones) i n type =
    let rest = allocate_from fuel pmm zones (i + 1) n type in
    if skips zone n type then rest else allocate_in fuel pmm i zone n

-- The address returned, and the manager afterwards.
unfoldable pub allocate_physical : ℕ → Pmm → ℕ → ℕ → Outcome (ℕ × Pmm)
unfolding allocate_from
allocate_physical fuel pmm n type =
    if not (bit_and type mmio == 0)
    then panic "can't allocate MMIO addresses, they're supposed to be mapped!\n"
    else allocate_from fuel pmm pmm.mmap 0 n type
