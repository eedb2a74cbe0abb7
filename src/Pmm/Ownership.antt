-- ===== src/Pmm/Ownership.antt =====
-- Histories of calls of src/PMM.cpp: which runs of pages the callers have been given and have not
-- given back, and what one successful call does to the pages of every zone.
pub mod Steps
pub mod Invariant
pub mod Histories
pub mod Boot
mod Tests
use ann_os.Base.{
  ℕ, zero, suc, ◌+◌, ◌≤◌, ◌^◌, ◌<◌, ◌≡◌, ◌≢◌, Bool, true, false, ◌&&◌, ◌==◌, if◌then◌else◌, arith,
  some, List, [], ◌∷◌, get_elem?, set, Memory, ok,
}
use ann_os.Pmm.{PmmZone, Pmm}
use ann_os.Pmm.Bitmap.Pages.{in_run}
use ann_os.Pmm.Zones.{find_zone}
use ann_os.Pmm.Mapping.{failed, page_offset, map_pages, unmap_pages}
use ann_os.Pmm.Mapping.Pages.{page_state}
use ann_os.Pmm.Allocation.{allocate_physical}
use ann_os.Pmm.Allocation.Pages.{Allocated}

-- `count` pages of zone number `zone`, from page `first` on.
pub record Run : Type 0 where
  pub zone : ℕ
  pub first : ℕ
  pub count : ℕ

abbrev pub run : ℕ → ℕ → ℕ → Run
run zone first count = record { zone = zone; first = first; count = count }

abbrev pub bit : Bool → ℕ
bit b = if b then 1 else 0

abbrev pub covers : Run → ℕ → ℕ → Bool
covers r i q = (r.zone == i) && in_run r.first r.count q

-- How many of the runs hold page `q` of zone number `i`.
unfoldable pub owners : List Run → ℕ → ℕ → ℕ
owners [] i q = 0
owners (r ∷ rs) i q = bit (covers r i q) + owners rs i q

abbrev pub remove : List Run → ℕ → List Run
remove [] k = []
remove (r ∷ rs) zero = rs
remove (r ∷ rs) (suc k) = r ∷ remove rs k

-- The runs that are out after a sequence of calls that began at `start`. Every run lies inside
-- its zone, and callers give back whole runs that are out.
pub data Trace (start : Pmm) : List Run → Pmm → Type 0 where
  started : Trace start [] start
  allocated :
      {rs : List Run} {pmm pmm' : Pmm} {addr : ℕ} (fuel n type : ℕ)
      → Trace start rs pmm
      → allocate_physical fuel pmm n type ≡ ok (addr, pmm')
      → fuel < 2 ^ 31
      → (a : Allocated fuel pmm n type addr pmm') → a.offset + n ≤ a.zone.pagecount
      → Trace start (run a.index a.offset n ∷ rs) pmm'
  mapped :
      {rs : List Run} {pmm : Pmm} {i : ℕ} {zone : PmmZone} (addr n : ℕ)
      → Trace start rs pmm
      → addr ≢ failed
      → find_zone pmm addr ≡ some (i, zone)
      → (map_pages pmm addr n).0 ≡ addr
      → page_offset zone addr + n ≤ zone.pagecount
      → Trace start (run i (page_offset zone addr) n ∷ rs) (map_pages pmm addr n).1
  unmapped :
      {rs : List Run} {pmm : Pmm} {i : ℕ} {zone : PmmZone} (addr n k : ℕ)
      → Trace start rs pmm
      → find_zone pmm addr ≡ some (i, zone)
      → page_offset zone addr + n ≤ zone.pagecount
      → get_elem? rs k ≡ some (run i (page_offset zone addr) n)
      → Trace start (remove rs k) (unmap_pages pmm addr n).1

-- A call took the manager from `pmm` to `pmm'` and worked on one zone only: that zone has the
-- pages `pages` mapped afterwards, and the pages of the others are as they were.
pub record Worked (pmm pmm' : Pmm) (i : ℕ) (zone : PmmZone) (pages : ℕ → Bool) : Type 0 where
  pub at : get_elem? pmm.mmap i ≡ some zone
  pub moved : PmmZone
  pub mmap_eq : pmm'.mmap ≡ set pmm.mmap i moved
  pub same_bitmap : moved.alloc_bitmap ≡ zone.alloc_bitmap
  pub same_count : moved.pagecount ≡ zone.pagecount
  pub here : (q : ℕ) → page_state pmm' zone q ≡ pages q
  pub elsewhere :
      (j : ℕ) (other : PmmZone)
      → get_elem? pmm.mmap j ≡ some other
      → i ≢ j
      → (q : ℕ) → q < other.pagecount
      → page_state pmm' other q ≡ page_state pmm other q

-- Taking a run out of the list takes its pages out of the count.
pub owners-remove :
    (rs : List Run) (k : ℕ) {r : Run}
    → get_elem? rs k ≡ some r
    → (i q : ℕ) → owners rs i q ≡ bit (covers r i q) + owners (remove rs k) i q
unfolding owners
owners-remove [] k at i q = absurd (cc)
owners-remove (x ∷ xs) zero {r} at i q = let e : x ≡ r = cc in rw e
owners-remove (x ∷ xs) (suc k) at i q = omega (arith, owners-remove xs k at i q)
