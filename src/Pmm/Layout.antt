-- ===== src/Pmm/Layout.antt =====
-- The bitmaps lie one behind the other, so work on one zone leaves the pages of the others alone.
use ann_os.Base.{
  ℕ, zero, suc, ◌+◌, ◌/◌, ◌≤◌, ◌<◌, ◌≡◌, refl, ◌⊎◌, inl, inr, ◌≢◌, arith, Memory, some, List, [],
  ◌∷◌, get_elem?, set, ok, ap,
}
use ann_os.Pmm.{PmmZone, Pmm}
use ann_os.Pmm.Zones.{find_zone}
use ann_os.Pmm.Zones.Lookup.{find_zone-FirstZone}
use ann_os.Pmm.Bitmap.Pages.{is_mapped}
use ann_os.Pmm.Bitmap.Frame.{Outside, map_pages_in_bitmap-frame, toggle_pages_in_bitmap-frame}
use ann_os.Pmm.Mapping.{page_offset, mark_mapped, map_pages, unmap_in_zone, unmap_pages}
use ann_os.Pmm.Mapping.Cases.{map_pages_cases}
use ann_os.Pmm.Mapping.Pages.{page_state}
use ann_os.Pmm.Allocation.{take_run, allocate_physical}
use ann_os.Pmm.Allocation.Pages.{Allocated, allocate_physical-Allocated}

-- `(pagecount / 8) + 1`
abbrev pub bitmap_bytes : ℕ → ℕ
bitmap_bytes pagecount = pagecount / 8 + 1

-- Each bitmap starts at or behind the end of the one before, the first at or behind `low`.
abbrev pub Layout : ℕ → List PmmZone → Type 0
Layout low [] = Unit {0}
Layout low (zone ∷ zones) =
    (low ≤ zone.alloc_bitmap) × Layout (zone.alloc_bitmap + bitmap_bytes zone.pagecount) zones

Layout-above :
    (low : ℕ) (zones : List PmmZone) (k : ℕ) {zone : PmmZone}
    → Layout low zones
    → get_elem? zones k ≡ some zone
    → low ≤ zone.alloc_bitmap
Layout-above low [] k l at = absurd (cc)
Layout-above low (z ∷ zs) zero l at = ground (arith, l.0)
Layout-above low (z ∷ zs) (suc k) l at =
    omega (arith, Layout-above (z.alloc_bitmap + bitmap_bytes z.pagecount) zs k l.1 at, l.0)

-- The bitmaps of two zones share no byte.
abbrev pub Apart : PmmZone → PmmZone → Type 0
Apart z w =
    (z.alloc_bitmap + bitmap_bytes z.pagecount ≤ w.alloc_bitmap)
    ⊎ (w.alloc_bitmap + bitmap_bytes w.pagecount ≤ z.alloc_bitmap)

pub Layout-Apart :
    (low : ℕ) (zones : List PmmZone) (i j : ℕ) {z w : PmmZone}
    → Layout low zones
    → get_elem? zones i ≡ some z
    → get_elem? zones j ≡ some w
    → i ≢ j
    → Apart z w
Layout-Apart low [] i j l p q ne = absurd (cc)
Layout-Apart low (x ∷ xs) zero zero l p q ne = absurd (ne refl)
Layout-Apart low (x ∷ xs) zero (suc j) l p q ne = inl (ground (arith, Layout-above _ xs j l.1 q))
Layout-Apart low (x ∷ xs) (suc i) zero l p q ne = inr (ground (arith, Layout-above _ xs i l.1 p))
Layout-Apart low (x ∷ xs) (suc i) (suc j) l p q ne =
    Layout-Apart (x.alloc_bitmap + bitmap_bytes x.pagecount) xs i j l.1 p q (λ e. ne (ap suc e))

-- A change of first free addresses keeps the layout.
pub Layout-set :
    (low : ℕ) (zones : List PmmZone) (i : ℕ) (z z' : PmmZone)
    → get_elem? zones i ≡ some z
    → z'.alloc_bitmap ≡ z.alloc_bitmap
    → z'.pagecount ≡ z.pagecount
    → Layout low zones
    → Layout low (set zones i z')
Layout-set low [] i z z' at p q l = tt
Layout-set low (x ∷ xs) zero z z' at p q l = let e : x ≡ z = cc in rw (p, q, ← e) l
Layout-set low (x ∷ xs) (suc i) z z' at p q l =
    (l.0, Layout-set (x.alloc_bitmap + bitmap_bytes x.pagecount) xs i z z' at p q l.1)

pub is_mapped-agree :
    (m m' : Memory) (bitmap q : ℕ)
    → m' (bitmap + q / 8) ≡ m (bitmap + q / 8)
    → is_mapped m' bitmap q ≡ is_mapped m bitmap q
unfolding is_mapped
is_mapped-agree m m' bitmap q e = rw e

-- The byte of a page of one zone is none of those of a run that fits another zone.
other_byte :
    (z w : PmmZone) (p n q : ℕ)
    → Apart z w
    → p + n ≤ z.pagecount
    → q < w.pagecount
    → Outside z.alloc_bitmap p n (w.alloc_bitmap + q / 8)
other_byte z w p n q apart fits inside = omega arith

-- `MapPages`, for a run that fits the zone of its address, changes no page of another zone.
pub map_pages-other_zone :
    (pmm : Pmm) (low addr n i j : ℕ) (zone other : PmmZone)
    → Layout low pmm.mmap
    → find_zone pmm addr ≡ some (i, zone)
    → page_offset zone addr + n ≤ zone.pagecount
    → get_elem? pmm.mmap j ≡ some other
    → i ≢ j
    → (q : ℕ) → q < other.pagecount
    → page_state (map_pages pmm addr n).1 other q ≡ page_state pmm other q
map_pages-other_zone pmm low addr n i j zone other l found fits at ne q inside =
    elim (map_pages_cases pmm addr n) [
      | inl h ↦ rw h
      | inr (a, h) ↦
          let e : zone ≡ a.zone = cc (a.found) in
          rw (h, ← e)
            (unfold mark_mapped in
              is_mapped-agree _ _ other.alloc_bitmap q (
                map_pages_in_bitmap-frame pmm.mem zone.alloc_bitmap (page_offset zone addr) n _
                  (other_byte zone other _ n q apart fits inside)))
    ]
  where
    apart : Apart zone other
    apart = Layout-Apart low pmm.mmap i j l (find_zone-FirstZone pmm addr found).at at ne

-- Nor does `UnmapPages`.
pub unmap_pages-other_zone :
    (pmm : Pmm) (low addr n i j : ℕ) (zone other : PmmZone)
    → Layout low pmm.mmap
    → find_zone pmm addr ≡ some (i, zone)
    → page_offset zone addr + n ≤ zone.pagecount
    → get_elem? pmm.mmap j ≡ some other
    → i ≢ j
    → (q : ℕ) → q < other.pagecount
    → page_state (unmap_pages pmm addr n).1 other q ≡ page_state pmm other q
unfolding unmap_pages unmap_in_zone
unmap_pages-other_zone pmm low addr n i j zone other l found fits at ne q inside =
    rw (found, unmap_pages)
      (is_mapped-agree _ _ other.alloc_bitmap q (
        toggle_pages_in_bitmap-frame pmm.mem zone.alloc_bitmap (page_offset zone addr) n _
          (other_byte zone other _ n q apart fits inside)))
  where
    apart : Apart zone other
    apart = Layout-Apart low pmm.mmap i j l (find_zone-FirstZone pmm addr found).at at ne

-- Nor does taking a run that fits its zone.
pub take_run-other_zone :
    (pmm : Pmm) (low i n offset : ℕ) (zone : PmmZone)
    → Layout low pmm.mmap
    → get_elem? pmm.mmap i ≡ some zone
    → offset + n ≤ zone.pagecount
    → (j : ℕ) (other : PmmZone) → get_elem? pmm.mmap j ≡ some other
    → i ≢ j
    → (q : ℕ) → q < other.pagecount
    → page_state (take_run pmm i zone n offset) other q ≡ page_state pmm other q
unfolding take_run
take_run-other_zone pmm low i n offset zone l here fits j other at ne q inside =
    is_mapped-agree _ _ other.alloc_bitmap q (
      map_pages_in_bitmap-frame pmm.mem zone.alloc_bitmap offset n _
        (other_byte zone other _ n q (Layout-Apart low pmm.mmap i j l here at ne) fits inside))

-- Nor does `AllocatePhysical`, if the run that it finds fits its zone.
pub allocate_physical-other_zone :
    (fuel : ℕ) (pmm : Pmm) (low n type : ℕ) {addr : ℕ} {pmm' : Pmm}
    → Layout low pmm.mmap
    → allocate_physical fuel pmm n type ≡ ok (addr, pmm')
    → (a : Allocated fuel pmm n type addr pmm') × (a.offset + n ≤ a.zone.pagecount
        → (j : ℕ) (other : PmmZone) → get_elem? pmm.mmap j ≡ some other
        → a.index ≢ j
        → (q : ℕ) → q < other.pagecount
        → page_state pmm' other q ≡ page_state pmm other q)
allocate_physical-other_zone fuel pmm low n type {addr} {pmm'} l h = (a, rest)
  where
    a : Allocated fuel pmm n type addr pmm'
    a = allocate_physical-Allocated fuel pmm n type h

    rest :
        a.offset + n ≤ a.zone.pagecount
        → (j : ℕ) (other : PmmZone) → get_elem? pmm.mmap j ≡ some other
        → a.index ≢ j
        → (q : ℕ) → q < other.pagecount
        → page_state pmm' other q ≡ page_state pmm other q
    rest fits j other at ne q inside =
        rw (a.after)
          (take_run-other_zone pmm low a.index n a.offset a.zone l a.at fits j other at ne q inside)
