-- ===== src/Pmm/Init.antt =====
-- The constructor `PMM::PMM` of src/PMM.cpp.
pub mod Zones
pub mod Kernel
use ann_os.Base.{
  ℕ, Bool, ◌+◌, ◌*◌, ◌/◌, ◌&&◌, ltb, ◌==◌, if◌then◌else◌, add32, sub32, mul32, List, [], ◌∷◌,
  length, Memory, Outcome, ok, panic,
}
use ann_os.Libk.Mem.{memset}
use ann_os.Pmm.{MemoryMap, PmmZone, Pmm, phys_page_size, normal, mmio, low_memory}
use ann_os.Pmm.Layout.{bitmap_bytes}
use ann_os.Pmm.Mapping.{failed, map_pages}

-- `len / PHYS_PAGE_SIZE`, but 1 for an area shorter than a page.
abbrev pub zone_pages : ℕ → ℕ
zone_pages len = if ltb 0 len && (len / phys_page_size == 0) then 1 else len / phys_page_size

-- The `switch` on the type of the area.
unfoldable pub zone_type : MemoryMap → ℕ
zone_type area =
    if area.type == 1
    then (if low then low_memory else normal)
    else (if low then low_memory else 0) + mmio
  where
    low : Bool
    low = ltb (add32 area.start area.len) 0x100000

-- The zone of an area, with its bitmap at address `bitmap`.
unfoldable pub new_zone : MemoryMap → ℕ → PmmZone
unfolding zone_type
new_zone area bitmap = record {
  start = area.start;
  first_free_addr = area.start;
  pagecount = zone_pages area.len;
  type = zone_type area;
  alloc_bitmap = bitmap;
}

-- The loop over the memory map. `kend` is the end of the memory handed out by
-- `kernel_end_malloc`; the loop returns the memory, the new end and the zones.
unfoldable pub build_zones : Memory → ℕ → List MemoryMap → Memory × ℕ × List PmmZone
build_zones m kend [] = (m, kend, [])
build_zones m kend (area ∷ areas) =
    let bytes = bitmap_bytes (zone_pages area.len) in
    let (m', kend', zones) = build_zones (memset m kend 0 bytes) (add32 kend bytes) areas in
    (m', kend', new_zone area kend ∷ zones)

-- `sizeof(PMMZone)`: five words.
abbrev pub sizeof_zone : ℕ
sizeof_zone = 20

-- The pages in use up to the end of the tables: `pmm_page_count`.
abbrev pub used_pages : ℕ → ℕ → ℕ → ℕ
used_pages kend kernel_start virt_offset =
    add32 1 (sub32 kend (add32 kernel_start virt_offset) / phys_page_size)

-- `kend_addr` once the array of zones is taken.
abbrev pub tables_start : ℕ → List MemoryMap → ℕ
tables_start pool_start areas = add32 pool_start (mul32 sizeof_zone (length areas))

unfoldable pub new_pmm : Memory → ℕ → ℕ → ℕ → List MemoryMap → Outcome Pmm
unfolding build_zones
new_pmm m kernel_start virt_offset pool_start areas =
    let (m', kend, zones) = build_zones m (tables_start pool_start areas) areas in
    let (addr, pmm) =
      map_pages (record { mmap = zones; mem = m' }) kernel_start
        (used_pages kend kernel_start virt_offset) in
    if addr == failed then panic "pmm: no sufficient memory to even create the tables!" else ok pmm
