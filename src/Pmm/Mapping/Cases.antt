-- ===== src/Pmm/Mapping/Cases.antt =====
-- When `MapPages` succeeds, and what it does on every branch.
use ann_os.Base.{
  ℕ, ◌+◌, ◌≤◌, ◌<◌, ◌≡◌, ◌↔◌, ◌⊎◌, inl, inr, ◌≢◌, Bool-cases, Option-cases, false, ltb, arith, some,
}
use ann_os.Pmm.{PmmZone, Pmm}
use ann_os.Pmm.Bitmap.{check_if_pages_free}
use ann_os.Pmm.Bitmap.Pages.{is_mapped, check_if_pages_free_iff}
use ann_os.Pmm.Zones.{find_zone}
use ann_os.Pmm.Mapping.{failed, page_offset, mark_mapped, map_in_zone, map_pages}

-- No page of the run of `n` pages at `addr` is mapped in the zone.
abbrev pub FreeRun : Pmm → PmmZone → ℕ → ℕ → Type 0
FreeRun pmm zone addr n =
    (k : ℕ) → k < n → is_mapped pmm.mem zone.alloc_bitmap (page_offset zone addr + k) ≡ false

-- The request can be met: a zone holds the address, the address is not below the zone's first
-- free address, and the pages are free.
pub record Available (pmm : Pmm) (addr n : ℕ) : Type 0 where
  pub index : ℕ
  pub zone : PmmZone
  pub found : find_zone pmm addr ≡ some (index, zone)
  pub above : zone.first_free_addr ≤ addr
  pub free : FreeRun pmm zone addr n

map_in_zone_cases :
    (pmm : Pmm) (i : ℕ) (zone : PmmZone) (addr n : ℕ)
    → (map_in_zone pmm i zone addr n ≡ (failed, pmm))
      ⊎ ((zone.first_free_addr ≤ addr)
          × FreeRun pmm zone addr n
          × (map_in_zone pmm i zone addr n ≡ (addr, mark_mapped pmm i zone addr n)))
unfolding map_in_zone
map_in_zone_cases pmm i zone addr n = elim (Bool-cases (ltb addr zone.first_free_addr)) [
  | inl low ↦ inl (rw low)
  | inr high ↦
      elim (Bool-cases (check_if_pages_free pmm.mem zone.alloc_bitmap (page_offset zone addr) n)) [
        | inl free ↦ inr (ground arith, (check_if_pages_free_iff _ _ _ _).0 free, rw (high, free))
        | inr taken ↦ inl (rw (high, taken))
      ]
]

-- `MapPages` fails and changes nothing, or the request could be met and the pages are marked.
pub map_pages_cases :
    (pmm : Pmm) (addr n : ℕ)
    → (map_pages pmm addr n ≡ (failed, pmm))
      ⊎ ((a : Available pmm addr n) × (map_pages pmm addr n
            ≡ (addr, mark_mapped pmm a.index a.zone addr n)))
unfolding map_pages
map_pages_cases pmm addr n = elim (Option-cases (find_zone pmm addr)) [
  | inl e ↦ inl (rw (e, map_pages))
  | inr (r, e) ↦ found r e
]
  where
    found :
        (r : ℕ × PmmZone)
        → find_zone pmm addr ≡ some r
        → (map_pages pmm addr n ≡ (failed, pmm))
          ⊎ ((a : Available pmm addr n) × (map_pages pmm addr n
                ≡ (addr, mark_mapped pmm a.index a.zone addr n)))
    found (i, zone) e = elim (map_in_zone_cases pmm i zone addr n) [
      | inl h ↦ inl (rw (e, map_pages) h)
      | inr (above, free, h) ↦ inr (
        record { index = i; zone = zone; found = e; above = above; free = free },
        rw (e, map_pages) h,
      )
    ]

-- A request that can be met is met.
pub map_pages-Available :
    (pmm : Pmm) (addr n : ℕ) (a : Available pmm addr n)
    → map_pages pmm addr n ≡ (addr, mark_mapped pmm a.index a.zone addr n)
unfolding map_pages map_in_zone
map_pages-Available pmm addr n a =
    rw (a.found, map_pages) (ground (arith, (check_if_pages_free_iff _ _ _ _).1 a.free, a.above))

-- `MapPages` returns the address that it was given exactly when the first zone that holds the
-- address has its first free address no higher and has the `n` pages from there on free.
pub map_pages_iff :
    (pmm : Pmm) (addr n : ℕ)
    → addr ≢ failed
    → ((map_pages pmm addr n).0 ≡ addr) ↔ Available pmm addr n
map_pages_iff pmm addr n ne = (
  (λ e. elim (map_pages_cases pmm addr n) [ inl h ↦ absurd (ne (ground arith)) | inr (a, h) ↦ a ]),
  (λ a. rw (map_pages-Available pmm addr n a)),
)

-- A call of `MapPages` that returns the error code 0xffffffff leaves the manager as it was.
map_pages-failed :
    (pmm : Pmm) (addr n : ℕ)
    → addr ≢ failed
    → (map_pages pmm addr n).0 ≡ failed
    → (map_pages pmm addr n).1 ≡ pmm
map_pages-failed pmm addr n ne e = elim (map_pages_cases pmm addr n) [
  | inl h ↦ rw h
  | inr (a, h) ↦ absurd (ne (ground arith))
]
