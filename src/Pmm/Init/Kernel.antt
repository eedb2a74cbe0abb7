-- ===== src/Pmm/Init/Kernel.antt =====
-- What the constructor hands over: laid out bitmaps, with the pages in use mapped and no other.
use ann_os.Base.{
  ℕ, ◌+◌, ◌*◌, ◌^◌, ◌≤◌, ◌<◌, ◌≡◌, refl, sym, ap, subst, ◌∙◌, inl, inr, ◌≢◌, false, ◌==◌,
  Bool-cases, arith, Memory, some, List, get_elem?, length, ok,
}
use mathlib.Core.Path.{subst₂}
use ann_os.Pmm.{MemoryMap, PmmZone, Pmm}
use ann_os.Pmm.Zones.{find_zone}
use ann_os.Pmm.Zones.Lookup.{find_zone-FirstZone}
use ann_os.Pmm.Bitmap.Pages.{in_run}
use ann_os.Pmm.Layout.{Layout, Layout-set, map_pages-other_zone}
use ann_os.Pmm.Mapping.{failed, page_offset, mark_mapped, map_pages}
use ann_os.Pmm.Mapping.Cases.{Available, map_pages_iff, map_pages_cases}
use ann_os.Pmm.Mapping.Pages.{page_state, map_pages-page_state}
use ann_os.Pmm.Init.{build_zones, tables_start, used_pages, new_pmm}
use ann_os.Pmm.Init.Zones.{tables_size, build_zones-kend, build_zones-Layout, build_zones-free}

-- The manager before the kernel's own pages are mapped.
abbrev pub bare : Memory → ℕ → List MemoryMap → Pmm
bare m pool_start areas =
    let (m', kend, zones) = build_zones m (tables_start pool_start areas) areas in
    record { mmap = zones; mem = m' }

pub map_pages-Layout :
    (pmm : Pmm) (low addr n : ℕ) → Layout low pmm.mmap → Layout low (map_pages pmm addr n).1.mmap
map_pages-Layout pmm low addr n l = elim (map_pages_cases pmm addr n) [
  | inl h ↦ rw h l
  | inr (a, h) ↦ rw h (marked a (find_zone-FirstZone pmm addr a.found).at)
]
  where
    marked :
        (a : Available pmm addr n)
        → get_elem? pmm.mmap a.index ≡ some a.zone
        → Layout low (mark_mapped pmm a.index a.zone addr n).mmap
    marked a at = elim (Bool-cases (addr == a.zone.first_free_addr)) [
      | inl e ↦ unfold mark_mapped in rw e (Layout-set low pmm.mmap a.index a.zone _ at refl refl l)
      | inr e ↦ unfold mark_mapped in rw e l
    ]

-- `kend_addr` after the loop, and the number of pages that the constructor maps.
abbrev pub table_end : Memory → ℕ → List MemoryMap → ℕ
table_end m pool_start areas = (build_zones m (tables_start pool_start areas) areas).1

abbrev pub kernel_pages : Memory → ℕ → ℕ → ℕ → List MemoryMap → ℕ
kernel_pages m kernel_start virt_offset pool_start areas =
    used_pages (table_end m pool_start areas) kernel_start virt_offset

-- The constructor returns only if its call of `MapPages` succeeds, and then what that call leaves.
pub new_pmm_cases :
    (m : Memory) (kernel_start virt_offset pool_start : ℕ) (areas : List MemoryMap) {pmm : Pmm}
    → new_pmm m kernel_start virt_offset pool_start areas ≡ ok pmm
    → let n = kernel_pages m kernel_start virt_offset pool_start areas in
      ((map_pages (bare m pool_start areas) kernel_start n).0 ≢ failed)
      × (pmm ≡ (map_pages (bare m pool_start areas) kernel_start n).1)
unfolding new_pmm
new_pmm_cases m kernel_start virt_offset pool_start areas {pmm} h =
    ((λ e. absurd (ground arith)), ground arith)

pub ok_addr :
    (pmm : Pmm) (addr n : ℕ) → (map_pages pmm addr n).0 ≢ failed → (map_pages pmm addr n).0 ≡ addr
ok_addr pmm addr n ne = elim (map_pages_cases pmm addr n) [
  | inl h ↦ absurd (ne (ground arith))
  | inr (a, h) ↦ ground arith
]

-- No page of any zone is mapped.
abbrev AllFree : Pmm → Type 0
AllFree pmm =
    (k : ℕ) (zone : PmmZone)
    → get_elem? pmm.mmap k ≡ some zone
    → (q : ℕ) → q < zone.pagecount
    → page_state pmm zone q ≡ false

abbrev HandedOver : Pmm → Pmm → ℕ → ℕ → ℕ → Type 0
HandedOver start pmm low addr n =
    Layout low pmm.mmap
    × (i : ℕ) × (zone : PmmZone) × (find_zone start addr ≡ some (i, zone))
    × ((q : ℕ) → q < zone.pagecount → page_state pmm zone q ≡ in_run (page_offset zone addr) n q)
    × (page_offset zone addr + n ≤ zone.pagecount
        → (j : ℕ) (other : PmmZone) → get_elem? start.mmap j ≡ some other
        → i ≢ j
        → (q : ℕ) → q < other.pagecount
        → page_state pmm other q ≡ false)

map_pages-HandedOver :
    (start : Pmm) (low addr n : ℕ)
    → Layout low start.mmap
    → AllFree start
    → addr ≢ failed
    → (map_pages start addr n).0 ≡ addr
    → HandedOver start (map_pages start addr n).1 low addr n
map_pages-HandedOver start low addr n l free ne done =
    let a = (map_pages_iff start addr n ne).0 done in
    let at = (find_zone-FirstZone start addr a.found).at in
    (
      map_pages-Layout start low addr n l,
      a.index,
      a.zone,
      a.found,
      (λ q lt. ground (
        arith,
        map_pages-page_state start addr n ne a.found done q,
        free a.index a.zone at q lt,
      )),
      (λ fits j other there apart q lt.
          map_pages-other_zone start low addr n a.index j a.zone other l a.found fits there apart q
            lt
          ∙ free j other there q lt),
    )

pub bare-AllFree :
    (m : Memory) (pool_start : ℕ) (areas : List MemoryMap)
    → tables_start pool_start areas + tables_size areas < 2 ^ 32
    → AllFree (bare m pool_start areas)
bare-AllFree m pool_start areas h = build_zones-free m (tables_start pool_start areas) areas h

-- If the zones and bitmaps fit below 4 GiB and the constructor returns, then the bitmaps lie one
-- behind the other from the end of the array of zones on; in the zone of the kernel's start the
-- pages mapped are the `pmm_page_count` pages from the kernel's start on, no other; and if these
-- fit that zone, no page of another zone is mapped.
pub new_pmm-pages :
    (m : Memory) (kernel_start virt_offset pool_start : ℕ) (areas : List MemoryMap) {pmm : Pmm}
    → pool_start + 20 * length areas + tables_size areas < 2 ^ 32
    → kernel_start ≢ failed
    → new_pmm m kernel_start virt_offset pool_start areas ≡ ok pmm
    → let low = pool_start + 20 * length areas in
      let n = used_pages (low + tables_size areas) kernel_start virt_offset in
      Layout low pmm.mmap
      × (i : ℕ) × (zone : PmmZone) × (find_zone (bare m pool_start areas) kernel_start
          ≡ some (i, zone))
      × ((q : ℕ)
          → q < zone.pagecount
          → page_state pmm zone q ≡ in_run (page_offset zone kernel_start) n q)
      × (page_offset zone kernel_start + n ≤ zone.pagecount
          → (j : ℕ) (other : PmmZone) → get_elem? (bare m pool_start areas).mmap j ≡ some other
          → i ≢ j
          → (q : ℕ) → q < other.pagecount
          → page_state pmm other q ≡ false)
new_pmm-pages m kernel_start virt_offset pool_start areas {pmm} small ne h =
    let low = pool_start + 20 * length areas in
    let start : tables_start pool_start areas ≡ low = omega arith in
    let fits : tables_start pool_start areas + tables_size areas < 2 ^ 32 = omega arith in
    let n = kernel_pages m kernel_start virt_offset pool_start areas in
    let (passed, after) = new_pmm_cases m kernel_start virt_offset pool_start areas h in
    let over : HandedOver (bare m pool_start areas)
        (map_pages (bare m pool_start areas) kernel_start n).1 (tables_start pool_start areas)
        kernel_start n =
      map_pages-HandedOver (bare m pool_start areas) (tables_start pool_start areas) kernel_start n
        (build_zones-Layout m (tables_start pool_start areas) areas fits)
        (bare-AllFree m pool_start areas fits) ne
        (ok_addr (bare m pool_start areas) kernel_start n passed) in
    let count : kernel_pages m kernel_start virt_offset pool_start areas
        ≡ used_pages (tables_start pool_start areas + tables_size areas) kernel_start virt_offset =
      ap (λ k. used_pages k kernel_start virt_offset)
        (build_zones-kend m (tables_start pool_start areas) areas fits) in
    subst₂ (λ l k. HandedOver (bare m pool_start areas) pmm l kernel_start k) start
      (count ∙ ap (λ l. used_pages (l + tables_size areas) kernel_start virt_offset) start)
      (subst
        (λ p. HandedOver (bare m pool_start areas) p (tables_start pool_start areas) kernel_start n)
        (sym after) over)
