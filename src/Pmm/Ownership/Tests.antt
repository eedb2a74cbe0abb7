-- ===== src/Pmm/Ownership/Tests.antt =====
-- Histories of a small manager, with the theorems on them at concrete inputs.
use ann_os.Base.{◌+◌, ◌≤◌, ◌≡◌, refl, true, arith, [], ◌∷◌, bit_at}
use ann_os.Libk.Mem.{memset}
use ann_os.Pmm.{Pmm, PmmZone}
use ann_os.Pmm.Tests.{
  blank, pool, normal_zone, device_zone, next_zone, one_taken, allocated_one, areas, booted, boots,
}
use ann_os.Pmm.Bitmap.{check_if_pages_free, check_loop, map_pages_in_bitmap, map_loop, set_bit}
use ann_os.Pmm.Zones.{zone_end, in_zone, find_zone_from, find_zone}
use ann_os.Pmm.Mapping.{map_pages, map_in_zone, unmap_pages}
use ann_os.Pmm.Mapping.Pages.{page_state}
use ann_os.Pmm.Allocation.{search, skips, take_run}
use ann_os.Pmm.Allocation.Pages.{Allocated}
use ann_os.Pmm.Init.{new_pmm, new_zone, zone_type}
use ann_os.Pmm.Ownership.{run, bit, covers, owners, Trace, started, allocated, mapped, unmapped}
use ann_os.Pmm.Ownership.Histories.{Trace-owners}
use ann_os.Pmm.Ownership.Boot.{new_pmm-Trace-owners}

first_page : Allocated 8 pool 1 1 0x100000 one_taken
unfolding skips search check_if_pages_free check_loop bit_at
first_page = record {
  index = 0;
  zone = normal_zone;
  offset = 0;
  at = refl;
  suits = refl;
  found = refl;
  addr_eq = refl;
  after = refl;
}

-- One page allocated, two pages of the device mapped, and the first page given back.
abbrev device_mapped : Pmm
device_mapped = (map_pages one_taken 0xf0001000 2).1

two_out : Trace pool (run 1 1 2 ∷ run 0 0 1 ∷ []) device_mapped
unfolding first_page find_zone find_zone_from in_zone zone_end take_run map_pages map_in_zone
    check_if_pages_free check_loop bit_at map_pages_in_bitmap map_loop set_bit
two_out =
    mapped {i = 1} {zone = device_zone} 0xf0001000 2
      (allocated 8 1 1 started allocated_one (omega arith) first_page (omega arith)) (omega arith)
      refl refl (omega arith)

abbrev given_back : Pmm
given_back = (unmap_pages device_mapped 0x100000 1).1

one_out : Trace pool (run 1 1 2 ∷ []) given_back
unfolding find_zone find_zone_from in_zone zone_end take_run map_pages map_in_zone
    check_if_pages_free check_loop bit_at map_pages_in_bitmap map_loop set_bit
one_out = unmapped {i = 0} {zone = next_zone} 0x100000 1 1 two_out refl (omega arith) refl

Trace-owners_example :
    (bit (page_state given_back device_zone 2)
      ≡ bit (page_state pool device_zone 2) + owners (run 1 1 2 ∷ []) 1 2)
    × (owners (run 1 1 2 ∷ []) 1 2 ≤ 1)
    × (page_state pool device_zone 2 ≡ true → owners (run 1 1 2 ∷ []) 1 2 ≡ 0)
Trace-owners_example =
    Trace-owners 0x2000 pool (omega arith) one_out 1 device_zone refl 2 (omega arith)

abbrev kernel_zone : PmmZone
kernel_zone = record {
  start = 0x100000;
  first_free_addr = 0x100000;
  pagecount = 2048;
  type = 1;
  alloc_bitmap = 0x11003c;
}

-- The kernel's 17 pages are mapped at boot; then two more behind them.
abbrev two_more : Pmm
two_more = (map_pages booted 0x111000 2).1

after_boot : Trace booted (run 1 17 2 ∷ []) two_more
unfolding new_pmm new_zone zone_type map_pages map_in_zone find_zone find_zone_from in_zone zone_end
    check_if_pages_free check_loop bit_at memset map_pages_in_bitmap map_loop set_bit
after_boot =
    mapped {i = 1} {zone = record kernel_zone { first_free_addr = 0x111000 }} 0x111000 2 started
      (omega arith) refl refl (omega arith)

new_pmm-Trace-owners_example :
    (bit (page_state two_more kernel_zone 16)
      ≡ bit (covers (run 1 0 17) 1 16) + owners (run 1 17 2 ∷ []) 1 16)
    × (owners (run 1 17 2 ∷ []) 1 16 ≤ 1)
    × (covers (run 1 0 17) 1 16 ≡ true → owners (run 1 17 2 ∷ []) 1 16 ≡ 0)
unfolding new_pmm new_zone zone_type find_zone find_zone_from in_zone zone_end memset
new_pmm-Trace-owners_example =
    new_pmm-Trace-owners blank 0x100000 0 0x110000 areas {k = 1} (omega arith) (omega arith) boots
      refl (omega arith) after_boot 1 kernel_zone refl 16 (omega arith)
