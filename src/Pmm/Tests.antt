-- ===== src/Pmm/Tests.antt =====
-- Runs of the physical memory manager, and its theorems at concrete inputs.
use ann_os.Base.{
  ℕ, zero, suc, sym, ◌⊎◌, ◌+◌, ◌≤◌, ◌<◌, ◌≡◌, refl, ◌↔◌, ◌≢◌, false, ◌||◌, arith, bit_and, bit_at,
  List, [], ◌∷◌, some, get_elem?, Memory, ok, panic, ◌==◌, if◌then◌else◌,
}
use ann_os.Libk.Mem.{memset}
use ann_os.Pmm.{MemoryMap, PmmZone, Pmm}
use ann_os.Pmm.Bitmap.{check_if_pages_free, check_loop, map_pages_in_bitmap, map_loop, set_bit}
use ann_os.Pmm.Bitmap.Pages.{is_mapped, in_run}
use ann_os.Pmm.Zones.{zone_end, in_zone, find_zone_from, find_zone}
use ann_os.Pmm.Mapping.{page_offset, map_in_zone, map_pages, unmap_pages}
use ann_os.Pmm.Mapping.Cases.{Available, map_pages_iff}
use ann_os.Pmm.Mapping.Pages.{page_state}
use ann_os.Pmm.Mapping.RoundTrip.{unmap_pages-map_pages}
use ann_os.Pmm.Allocation.{
  search, first_offset, skips, page_address, take_run, allocate_in, allocate_from,
  allocate_physical,
}
use ann_os.Pmm.Allocation.Pages.{Allocated, allocate_physical-pages}
use ann_os.Pmm.Allocation.Limits.{
  Bounded, Short, allocate_physical_past_end, allocate_physical-exhausted_iff,
  allocate_physical_total,
}
use ann_os.Pmm.Layout.{Layout}
use ann_os.Pmm.Init.{new_pmm, new_zone, zone_type}
use ann_os.Pmm.Init.Kernel.{bare, new_pmm-pages}

abbrev pub blank : Memory
blank a = 0

-- Sixteen pages at 1 MiB.
abbrev pub normal_zone : PmmZone
normal_zone = record {
  start = 0x100000;
  first_free_addr = 0x100000;
  pagecount = 16;
  type = 1;
  alloc_bitmap = 0x2000;
}

-- Four pages of device memory.
abbrev pub device_zone : PmmZone
device_zone = record {
  start = 0xf0000000;
  first_free_addr = 0xf0000000;
  pagecount = 4;
  type = 2;
  alloc_bitmap = 0x2003;
}

abbrev pub pool : Pmm
pool = record { mmap = normal_zone ∷ device_zone ∷ []; mem = blank }

-- The zone after one page was allocated.
abbrev pub one_taken : Pmm
one_taken = take_run pool 0 normal_zone 1 0

abbrev pub next_zone : PmmZone
next_zone = record normal_zone { first_free_addr = 0x101000 }

map_pages_iff_example : ((map_pages pool 0xf0001000 2).0 ≡ 0xf0001000) ↔ Available pool 0xf0001000 2
map_pages_iff_example = map_pages_iff pool 0xf0001000 2 (omega arith)

unmap_pages-map_pages_example :
    ((unmap_pages (map_pages pool 0x100000 3).1 0x100000 3).0 ≡ 3)
    × ((unmap_pages (map_pages pool 0x100000 3).1 0x100000 3).1.mmap ≡ pool.mmap)
    × ((q : ℕ)
        → page_state (unmap_pages (map_pages pool 0x100000 3).1 0x100000 3).1 normal_zone q
          ≡ page_state pool normal_zone q)
unfolding map_pages map_in_zone find_zone find_zone_from in_zone zone_end check_if_pages_free
    check_loop bit_at
unmap_pages-map_pages_example =
    unmap_pages-map_pages pool 0x100000 3 {i = 0} {zone = normal_zone} (omega arith) (omega arith)
      refl refl

pub allocated_one : allocate_physical 8 pool 1 1 ≡ ok (0x100000, one_taken)
unfolding allocate_physical allocate_from allocate_in skips search check_if_pages_free check_loop
    bit_at take_run
allocated_one = refl

allocate_physical-pages_example :
    (i : ℕ) × (zone : PmmZone) × (offset : ℕ) × (get_elem? pool.mmap i ≡ some zone)
    × (bit_and zone.type 1 ≢ 0)
    × (0x100000 ≡ page_address zone offset)
    × ((k : ℕ) → k < 1 → is_mapped pool.mem zone.alloc_bitmap (offset + k) ≡ false)
    × ((k : ℕ)
        → first_offset zone ≤ k
        → k < offset
        → check_if_pages_free pool.mem zone.alloc_bitmap k 1 ≡ false)
    × ((q : ℕ)
        → is_mapped one_taken.mem zone.alloc_bitmap q
          ≡ (in_run offset 1 q || is_mapped pool.mem zone.alloc_bitmap q))
allocate_physical-pages_example = allocate_physical-pages 8 pool 1 1 (omega arith) allocated_one

allocated_two :
    allocate_physical 8 one_taken 2 1 ≡ ok (0x101000, take_run one_taken 0 next_zone 2 1)
unfolding allocate_physical allocate_from allocate_in skips search check_if_pages_free check_loop
    bit_at take_run map_pages_in_bitmap map_loop set_bit
allocated_two = refl

-- Pages 1 and 3 of the four are mapped, so no two pages in a row are free.
abbrev holes : Pmm
holes = record {
  mmap = record device_zone { type = 1 } ∷ [];
  mem = λ a. if a == 0x2003 then 0b1010 else 0;
}

allocated_past :
    allocate_physical 8 holes 2 1
    ≡ ok (0xf0004000, take_run holes 0 (record device_zone { type = 1 }) 2 4)
unfolding allocate_physical allocate_from allocate_in skips search check_if_pages_free check_loop
    bit_at take_run
allocated_past = refl

allocate_physical_past_end_example :
    (a : Allocated 8 holes 2 1 0xf0004000 (take_run holes 0 (record device_zone { type = 1 }) 2 4))
    × (((k : ℕ)
          → first_offset a.zone ≤ k
          → k + 2 ≤ a.zone.pagecount
          → check_if_pages_free holes.mem a.zone.alloc_bitmap k 2 ≡ false)
        → a.zone.pagecount < a.offset + 2)
allocate_physical_past_end_example =
    allocate_physical_past_end 8 holes 2 1 (omega arith) allocated_past

pool-Bounded : (k : ℕ) (zone : PmmZone) → get_elem? pool.mmap k ≡ some zone → Bounded zone
pool-Bounded zero zone there =
    let e : normal_zone ≡ zone = cc in rw (sym e) (omega arith, omega arith, omega arith)
pool-Bounded (suc zero) zone there =
    let e : device_zone ≡ zone = cc in rw (sym e) (omega arith, omega arith, omega arith)
pool-Bounded (suc (suc k)) zone there = absurd (cc)

allocate_physical-exhausted_iff_example :
    (allocate_physical 8 pool 40 1
      ≡ panic "pmm: AllocatePhysical: phys memory exhausted, no suitable zones")
    ↔ ((k : ℕ) (zone : PmmZone)
        → get_elem? pool.mmap k ≡ some zone
        → (bit_and zone.type 1 ≡ 0) ⊎ Short zone 40)
allocate_physical-exhausted_iff_example =
    allocate_physical-exhausted_iff 8 pool 40 1 refl (omega arith) pool-Bounded

allocate_physical_total_example :
    (addr : ℕ) × (pmm' : Pmm) × (allocate_physical 8 pool 1 1 ≡ ok (addr, pmm'))
unfolding skips check_if_pages_free check_loop bit_at
allocate_physical_total_example =
    allocate_physical_total 8 pool 1 1 0 0 normal_zone (omega arith) refl refl refl
      (λ k other lt _. absurd (omega arith)) (omega arith) refl

-- Two areas; the kernel starts at 1 MiB and its tables at 0x110000, identity mapped.
abbrev pub areas : List MemoryMap
areas =
    record { start = 0; len = 0x9f000; type = 1 }
    ∷ record { start = 0x100000; len = 0x800000; type = 1 }
    ∷ []

abbrev pub booted : Pmm
booted = (map_pages (bare blank 0x110000 areas) 0x100000 17).1

pub boots : new_pmm blank 0x100000 0 0x110000 areas ≡ ok booted
unfolding new_pmm new_zone zone_type map_pages map_in_zone find_zone find_zone_from in_zone zone_end
    check_if_pages_free check_loop bit_at memset
boots = refl

new_pmm-pages_example :
    Layout 0x110028 booted.mmap
    × (i : ℕ) × (zone : PmmZone) × (find_zone (bare blank 0x110000 areas) 0x100000 ≡ some (i, zone))
    × ((q : ℕ)
        → q < zone.pagecount
        → page_state booted zone q ≡ in_run (page_offset zone 0x100000) 17 q)
    × (page_offset zone 0x100000 + 17 ≤ zone.pagecount
        → (j : ℕ) (other : PmmZone) → get_elem? (bare blank 0x110000 areas).mmap j ≡ some other
        → i ≢ j
        → (q : ℕ) → q < other.pagecount
        → page_state booted other q ≡ false)
new_pmm-pages_example =
    new_pmm-pages blank 0x100000 0 0x110000 areas (omega arith) (omega arith) boots
