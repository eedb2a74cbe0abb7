-- ===== src/Pmm/Zones.antt =====
-- `PMM::FindZone` of src/PMM.cpp, and the zones that it looks through.
pub mod Lookup
use ann_os.Base.{
  ℕ, zero, suc, ◌+◌, Bool, ◌&&◌, leb, if◌then◌else◌, add32, sub32, mul32, Option, none, some, List,
  [], ◌∷◌,
}
use ann_os.Pmm.{PmmZone, Pmm, phys_page_size}

-- `zone->start + (PHYS_PAGE_SIZE * zone->pagecount) - 1`
unfoldable pub zone_end : PmmZone → ℕ
zone_end zone = sub32 (add32 zone.start (mul32 phys_page_size zone.pagecount)) 1

-- The condition of the loop of `FindZone`.
unfoldable pub in_zone : PmmZone → ℕ → Bool
in_zone zone addr = leb zone.start addr && leb addr (zone_end zone)

-- The loop from zone `i` on. A pointer to a zone is its index, with the zone's content.
unfoldable pub find_zone_from : List PmmZone → ℕ → ℕ → Option (ℕ × PmmZone)
find_zone_from [] i addr = none
find_zone_from (zone ∷ zones) i addr =
    if in_zone zone addr then some (i, zone) else find_zone_from zones (i + 1) addr

-- `none` is the null pointer.
unfoldable pub find_zone : Pmm → ℕ → Option (ℕ × PmmZone)
find_zone pmm addr = find_zone_from pmm.mmap 0 addr
