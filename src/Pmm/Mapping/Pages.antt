-- ===== src/Pmm/Mapping/Pages.antt =====
-- What `MapPages` and `UnmapPages` do to the pages of the zone that they work on.
use ann_os.Base.{ℕ, ◌≡◌, refl, inl, inr, ◌≢◌, Bool, true, false, ◌||◌, xor, arith, some}
use ann_os.Pmm.{PmmZone, Pmm}
use ann_os.Pmm.Bitmap.Pages.{
  is_mapped, in_run, is_mapped-map_pages_in_bitmap, is_mapped-toggle_pages_in_bitmap,
}
use ann_os.Pmm.Zones.{find_zone}
use ann_os.Pmm.Mapping.{failed, page_offset, mark_mapped, map_pages, unmap_in_zone, unmap_pages}
use ann_os.Pmm.Mapping.Cases.{map_pages_cases}

-- The pages that a manager holds as mapped in the zone.
abbrev pub page_state : Pmm → PmmZone → ℕ → Bool
page_state pmm zone = is_mapped pmm.mem zone.alloc_bitmap

-- After a successful `MapPages` the pages mapped in the zone are those of the request and those
-- that were mapped before.
pub map_pages-page_state :
    (pmm : Pmm) (addr n : ℕ) {i : ℕ} {zone : PmmZone}
    → addr ≢ failed
    → find_zone pmm addr ≡ some (i, zone)
    → (map_pages pmm addr n).0 ≡ addr
    → (q : ℕ)
    → page_state (map_pages pmm addr n).1 zone q
      ≡ (in_run (page_offset zone addr) n q || page_state pmm zone q)
map_pages-page_state pmm addr n {i} {zone} ne found ok q = elim (map_pages_cases pmm addr n) [
  | inl h ↦ absurd (ne (ground arith))
  | inr (a, h) ↦
      let e : zone ≡ a.zone = cc (a.found) in
      rw (h, ← e)
        (unfold mark_mapped in
          is_mapped-map_pages_in_bitmap pmm.mem zone.alloc_bitmap (page_offset zone addr) n q)
]

-- `UnmapPages` flips each of the `n` pages and returns `n`: a page of the run that was free is
-- mapped afterwards.
pub unmap_pages-page_state :
    (pmm : Pmm) (addr n : ℕ) {i : ℕ} {zone : PmmZone}
    → find_zone pmm addr ≡ some (i, zone)
    → (q : ℕ)
    → ((unmap_pages pmm addr n).0 ≡ n)
      × (page_state (unmap_pages pmm addr n).1 zone q
          ≡ xor (in_run (page_offset zone addr) n q) (page_state pmm zone q))
unfolding unmap_pages unmap_in_zone
unmap_pages-page_state pmm addr n {i} {zone} found q =
    rw (found, unmap_pages)
      (refl, is_mapped-toggle_pages_in_bitmap pmm.mem zone.alloc_bitmap (page_offset zone addr) n q)

-- So unmapping a page that is not mapped, where the zone is known, maps it.
unmap_free_page_maps :
    (pmm : Pmm) (addr : ℕ) {i : ℕ} {zone : PmmZone}
    → find_zone pmm addr ≡ some (i, zone)
    → page_state pmm zone (page_offset zone addr) ≡ false
    → page_state (unmap_pages pmm addr 1).1 zone (page_offset zone addr) ≡ true
unmap_free_page_maps pmm addr {i} {zone} found free =
    ground (arith, unmap_pages-page_state pmm addr 1 found (page_offset zone addr))
