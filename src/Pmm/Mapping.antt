-- ===== src/Pmm/Mapping.antt =====
-- `PMM::MapPages` and `PMM::UnmapPages` of src/PMM.cpp.
pub mod Cases
pub mod Pages
pub mod RoundTrip
use ann_os.Base.{
  ℕ, ◌+◌, ◌-◌, ◌*◌, ◌/◌, ◌%◌, ltb, ◌==◌, if◌then◌else◌, add32, sub32, mul32, set, none, some,
}
use ann_os.Pmm.{PmmZone, Pmm, phys_page_size}
use ann_os.Pmm.Bitmap.{check_if_pages_free, map_pages_in_bitmap, toggle_pages_in_bitmap}
use ann_os.Pmm.Zones.{find_zone}

-- The error code that both functions return.
abbrev pub failed : ℕ
failed = 0xffffffff

-- `(addr - zone->start) / PHYS_PAGE_SIZE`
abbrev pub page_offset : PmmZone → ℕ → ℕ
page_offset zone addr = sub32 addr zone.start / phys_page_size

-- A successful `MapPages` in zone number `i`.
unfoldable pub mark_mapped : Pmm → ℕ → PmmZone → ℕ → ℕ → Pmm
mark_mapped pmm i zone addr n = record pmm {
  mmap =
      if addr == zone.first_free_addr
      then set pmm.mmap i
          (record zone { first_free_addr = add32 zone.first_free_addr (mul32 n phys_page_size) })
      else pmm.mmap;
  mem = map_pages_in_bitmap pmm.mem zone.alloc_bitmap (page_offset zone addr) n;
}

unfoldable pub map_in_zone : Pmm → ℕ → PmmZone → ℕ → ℕ → ℕ × Pmm
unfolding mark_mapped
map_in_zone pmm i zone addr n =
    if ltb addr zone.first_free_addr
    then (failed, pmm)
    else if check_if_pages_free pmm.mem zone.alloc_bitmap (page_offset zone addr) n
    then (addr, mark_mapped pmm i zone addr n)
    else (failed, pmm)

-- The value returned, and the manager afterwards.
unfoldable pub map_pages : Pmm → ℕ → ℕ → ℕ × Pmm
unfolding map_in_zone
map_pages pmm addr n = elim (find_zone pmm addr) [
  | none ↦ (failed, pmm)
  | some (i, zone) ↦ map_in_zone pmm i zone addr n
]

-- `addr & ~0xfff`
abbrev pub page_floor : ℕ → ℕ
page_floor addr = addr - addr % phys_page_size

unfoldable pub unmap_in_zone : Pmm → ℕ → PmmZone → ℕ → ℕ → ℕ × Pmm
unmap_in_zone pmm i zone addr n = (
  n,
  record pmm {
    mmap =
        if ltb addr zone.first_free_addr
        then set pmm.mmap i (record zone { first_free_addr = page_floor addr })
        else pmm.mmap;
    mem = toggle_pages_in_bitmap pmm.mem zone.alloc_bitmap (page_offset zone addr) n;
  },
)

unfoldable pub unmap_pages : Pmm → ℕ → ℕ → ℕ × Pmm
unfolding unmap_in_zone
unmap_pages pmm addr n = elim (find_zone pmm addr) [
  | none ↦ (failed, pmm)
  | some (i, zone) ↦ unmap_in_zone pmm i zone addr n
]
