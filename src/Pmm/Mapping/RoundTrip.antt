-- ===== src/Pmm/Mapping/RoundTrip.antt =====
-- `UnmapPages` undoes `MapPages`.
use ann_os.Base.{
  ℕ, zero, suc, ◌+◌, ◌-◌, ◌*◌, ◌%◌, ◌^◌, ◌≤◌, ◌<◌, ◌≡◌, refl, sym, ◌∙◌, inl, inr, ◌≢◌, ◌⊎◌, Bool,
  Bool-cases, true, false, ◌==◌, ltb, ◌||◌, xor, arith, some, set, get_elem?, set-set,
  set-get_elem?, if◌then◌else◌,
}
use ann_os.Pmm.{PmmZone, Pmm}
use ann_os.Pmm.Zones.{find_zone}
use ann_os.Pmm.Zones.Lookup.{find_zone-FirstZone, find_zone-set}
use ann_os.Pmm.Bitmap.Pages.{in_run, is_mapped-map_pages_in_bitmap}
use ann_os.Pmm.Mapping.{failed, page_offset, mark_mapped, map_pages, unmap_in_zone, unmap_pages}
use ann_os.Pmm.Mapping.Cases.{Available, FreeRun, map_pages_cases}
use ann_os.Pmm.Mapping.Pages.{page_state, unmap_pages-page_state}

-- The zone that `MapPages` leaves at the index that it worked on.
abbrev pub moved : PmmZone → ℕ → ℕ → PmmZone
moved zone addr n =
    if addr == zone.first_free_addr
    then record zone { first_free_addr = (zone.first_free_addr + n * 4096 % 2 ^ 32) % 2 ^ 32 }
    else zone

pub mark_mapped-mmap :
    (pmm : Pmm) (addr n : ℕ) (a : Available pmm addr n)
    → (mark_mapped pmm a.index a.zone addr n).mmap ≡ set pmm.mmap a.index (moved a.zone addr n)
unfolding mark_mapped
mark_mapped-mmap pmm addr n a = elim (Bool-cases (addr == a.zone.first_free_addr)) [
  | inl e ↦ rw e
  | inr e ↦ rw e (sym (set-get_elem? pmm.mmap a.index (find_zone-FirstZone pmm addr a.found).at))
]

mark_mapped-found :
    (pmm : Pmm) (addr n : ℕ) (a : Available pmm addr n)
    → find_zone (mark_mapped pmm a.index a.zone addr n) addr ≡ some (a.index, moved a.zone addr n)
mark_mapped-found pmm addr n a =
    find_zone-set pmm _ addr a.index a.zone (moved a.zone addr n) (ground arith) (ground arith)
      a.found (mark_mapped-mmap pmm addr n a)

restore :
    (zone : PmmZone) (addr n : ℕ)
    → addr % 4096 ≡ 0
    → addr + n * 4096 < 2 ^ 32
    → zone.first_free_addr ≤ addr
    → (ltb addr (moved zone addr n).first_free_addr ≡ true)
        × (record (moved zone addr n) { first_free_addr = addr - addr % 4096 } ≡ zone)
      ⊎ (ltb addr (moved zone addr n).first_free_addr ≡ false) × (moved zone addr n ≡ zone)
restore zone addr zero aligned fits above = inr (ground arith, ground arith)
restore zone addr (suc n) aligned fits above = elim (Bool-cases (addr == zone.first_free_addr)) [
  | inl e ↦ inl (ground arith, ground arith)
  | inr e ↦ inr (ground arith, ground arith)
]

unmap_in_zone-mmap :
    (pmm pmm' : Pmm) (i : ℕ) (zone : PmmZone) (addr n : ℕ)
    → addr % 4096 ≡ 0
    → addr + n * 4096 < 2 ^ 32
    → zone.first_free_addr ≤ addr
    → get_elem? pmm.mmap i ≡ some zone
    → pmm'.mmap ≡ set pmm.mmap i (moved zone addr n)
    → (unmap_in_zone pmm' i (moved zone addr n) addr n).1.mmap ≡ pmm.mmap
unfolding unmap_in_zone
unmap_in_zone-mmap pmm pmm' i zone addr n aligned fits above at e =
    elim (restore zone addr n aligned fits above) [
      | inl (low, back) ↦ rw (low, e, set-set, back, set-get_elem? pmm.mmap i at)
      | inr (high, same) ↦ rw (high, e, same, set-get_elem? pmm.mmap i at)
    ]

xor_after_or :
    (run before : Bool) → (run ≡ true → before ≡ false) → xor run (run || before) ≡ before
xor_after_or true before h = ground (arith, h refl)
xor_after_or false before h = refl

pub free_in_run :
    (pmm : Pmm) (zone : PmmZone) (addr n q : ℕ)
    → FreeRun pmm zone addr n
    → in_run (page_offset zone addr) n q ≡ true
    → page_state pmm zone q ≡ false
free_in_run pmm zone addr n q free inside =
    let e : page_offset zone addr + (q - page_offset zone addr) ≡ q = ground arith in
    rw e at (free (q - page_offset zone addr) (ground arith))

moved-same :
    (zone : PmmZone) (addr n : ℕ)
    → ((moved zone addr n).start ≡ zone.start)
      × ((moved zone addr n).alloc_bitmap ≡ zone.alloc_bitmap)
moved-same zone addr n = ground arith

pages_back :
    (pmm : Pmm) (addr n : ℕ) (a : Available pmm addr n) (q : ℕ)
    → page_state (unmap_pages (mark_mapped pmm a.index a.zone addr n) addr n).1 a.zone q
      ≡ page_state pmm a.zone q
unfolding mark_mapped
pages_back pmm addr n a q =
    let (same_start, same_bitmap) = moved-same a.zone addr n in
    rw (same_start, same_bitmap) at
      (unmap_pages-page_state (mark_mapped pmm a.index a.zone addr n) addr n
        (mark_mapped-found pmm addr n a) q).1
    ∙ rw (is_mapped-map_pages_in_bitmap pmm.mem a.zone.alloc_bitmap (page_offset a.zone addr) n q)
        (xor_after_or _ _ (free_in_run pmm a.zone addr n q a.free))

zones_back :
    (pmm : Pmm) (addr n : ℕ) (a : Available pmm addr n)
    → addr % 4096 ≡ 0
    → addr + n * 4096 < 2 ^ 32
    → (unmap_pages (mark_mapped pmm a.index a.zone addr n) addr n).1.mmap ≡ pmm.mmap
unfolding unmap_pages
zones_back pmm addr n a aligned fits =
    rw (mark_mapped-found pmm addr n a, unmap_pages)
      (unmap_in_zone-mmap pmm (mark_mapped pmm a.index a.zone addr n) a.index a.zone addr n aligned
        fits a.above (find_zone-FirstZone pmm addr a.found).at (mark_mapped-mmap pmm addr n a))

-- `UnmapPages` undoes a successful `MapPages` of the same page-aligned run that ends below 4 GiB:
-- it returns the page count, every zone is as it was, and so is every page of the run's zone.
pub unmap_pages-map_pages :
    (pmm : Pmm) (addr n : ℕ) {i : ℕ} {zone : PmmZone}
    → addr % 4096 ≡ 0
    → addr + n * 4096 < 2 ^ 32
    → find_zone pmm addr ≡ some (i, zone)
    → (map_pages pmm addr n).0 ≡ addr
    → ((unmap_pages (map_pages pmm addr n).1 addr n).0 ≡ n)
      × ((unmap_pages (map_pages pmm addr n).1 addr n).1.mmap ≡ pmm.mmap)
      × ((q : ℕ)
          → page_state (unmap_pages (map_pages pmm addr n).1 addr n).1 zone q
            ≡ page_state pmm zone q)
unmap_pages-map_pages pmm addr n {i} {zone} aligned fits found ok =
    elim (map_pages_cases pmm addr n) [
      | inl h ↦ absurd (failed-unaligned (ground arith))
      | inr (a, h) ↦
          let e : zone ≡ a.zone = cc (a.found) in
          rw (h, e)
            (
              (unmap_pages-page_state _ addr n (mark_mapped-found pmm addr n a) 0).0,
              zones_back pmm addr n a aligned fits,
              pages_back pmm addr n a,
            )
    ]
  where
    failed-unaligned : addr ≢ failed
    failed-unaligned e = omega arith
