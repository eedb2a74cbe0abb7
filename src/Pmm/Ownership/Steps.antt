-- ===== src/Pmm/Ownership/Steps.antt =====
-- Each of the three calls works on one zone.
use ann_os.Base.{
  ℕ, ◌+◌, ◌≤◌, ◌≡◌, refl, inl, inr, ◌≢◌, Bool-cases, ◌||◌, xor, arith, some, get_elem?, set,
  set-get_elem?, add32, mul32, ltb, if◌then◌else◌,
}
use ann_os.Pmm.{PmmZone, Pmm, phys_page_size}
use ann_os.Pmm.Layout.{Layout, map_pages-other_zone, unmap_pages-other_zone, take_run-other_zone}
use ann_os.Pmm.Bitmap.Pages.{in_run}
use ann_os.Pmm.Zones.{find_zone}
use ann_os.Pmm.Zones.Lookup.{find_zone-FirstZone}
use ann_os.Pmm.Mapping.{failed, page_offset, page_floor, map_pages, unmap_in_zone, unmap_pages}
use ann_os.Pmm.Mapping.Cases.{map_pages_cases}
use ann_os.Pmm.Mapping.Pages.{page_state, map_pages-page_state, unmap_pages-page_state}
use ann_os.Pmm.Mapping.RoundTrip.{moved, mark_mapped-mmap}
use ann_os.Pmm.Allocation.{take_run, page_address}
use ann_os.Pmm.Allocation.Pages.{Allocated, Allocated-mapped}
use ann_os.Pmm.Ownership.{Worked}

pub allocate_physical-Worked :
    (fuel : ℕ) (pmm : Pmm) (low n type : ℕ) {addr : ℕ} {pmm' : Pmm}
    → Layout low pmm.mmap
    → (a : Allocated fuel pmm n type addr pmm') → a.offset + n ≤ a.zone.pagecount
    → Worked pmm pmm' a.index a.zone (λ q. in_run a.offset n q || page_state pmm a.zone q)
allocate_physical-Worked fuel pmm low n type l a fits = record {
  at = a.at;
  moved = record a.zone {
    first_free_addr = add32 (page_address a.zone a.offset) (mul32 n phys_page_size);
  };
  mmap_eq = rw (a.after) (unfold take_run in refl);
  same_bitmap = refl;
  same_count = refl;
  here = Allocated-mapped fuel pmm n type a;
  elsewhere = λ j other at apart q inside. rw (a.after) (
      take_run-other_zone pmm low a.index n a.offset a.zone l a.at (omega arith) j other at apart q
        inside);
}

pub map_pages-Worked :
    (pmm : Pmm) (low addr n : ℕ) {i : ℕ} {zone : PmmZone}
    → Layout low pmm.mmap
    → addr ≢ failed
    → find_zone pmm addr ≡ some (i, zone)
    → (map_pages pmm addr n).0 ≡ addr
    → page_offset zone addr + n ≤ zone.pagecount
    → Worked pmm
        (map_pages pmm addr n).1
        i
        zone
        (λ q. in_run (page_offset zone addr) n q || page_state pmm zone q)
map_pages-Worked pmm low addr n {i} {zone} l ne found ok fits = record {
  at = (find_zone-FirstZone pmm addr found).at;
  moved = moved zone addr n;
  mmap_eq = elim (map_pages_cases pmm addr n) [
    | inl h ↦ absurd (ne (ground arith))
    | inr (a, h) ↦
        let e : zone ≡ a.zone = cc (a.found) in
        let f : i ≡ a.index = cc (a.found) in rw (h, e, f) (mark_mapped-mmap pmm addr n a)
  ];
  same_bitmap = ground arith;
  same_count = ground arith;
  here = map_pages-page_state pmm addr n ne found ok;
  elsewhere = λ j other at apart.
      map_pages-other_zone pmm low addr n i j zone other l found (omega arith) at apart;
}

abbrev lowered : PmmZone → ℕ → PmmZone
lowered zone addr =
    if ltb addr zone.first_free_addr
    then record zone { first_free_addr = page_floor addr }
    else zone

unmap_in_zone-mmap_set :
    (pmm : Pmm) (i : ℕ) (zone : PmmZone) (addr n : ℕ)
    → get_elem? pmm.mmap i ≡ some zone
    → (unmap_in_zone pmm i zone addr n).1.mmap ≡ set pmm.mmap i (lowered zone addr)
unfolding unmap_in_zone
unmap_in_zone-mmap_set pmm i zone addr n at = elim (Bool-cases (ltb addr zone.first_free_addr)) [
  | inl below ↦ rw below
  | inr above ↦ rw (above, set-get_elem? pmm.mmap i at)
]

pub unmap_pages-Worked :
    (pmm : Pmm) (low addr n : ℕ) {i : ℕ} {zone : PmmZone}
    → Layout low pmm.mmap
    → find_zone pmm addr ≡ some (i, zone)
    → page_offset zone addr + n ≤ zone.pagecount
    → Worked pmm
        (unmap_pages pmm addr n).1
        i
        zone
        (λ q. xor (in_run (page_offset zone addr) n q) (page_state pmm zone q))
unmap_pages-Worked pmm low addr n {i} {zone} l found fits = record {
  at = (find_zone-FirstZone pmm addr found).at;
  moved = lowered zone addr;
  mmap_eq =
      unfold unmap_pages in
      rw (found, unmap_pages)
        (unmap_in_zone-mmap_set pmm i zone addr n (find_zone-FirstZone pmm addr found).at);
  same_bitmap = ground arith;
  same_count = ground arith;
  here = λ q. (unmap_pages-page_state pmm addr n found q).1;
  elsewhere = λ j other at apart.
      unmap_pages-other_zone pmm low addr n i j zone other l found (omega arith) at apart;
}
