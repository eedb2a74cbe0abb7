-- ===== src/Pmm/Allocation/Limits.antt =====
-- When `AllocatePhysical` returns, panics, or leaves the zone that it looks through.
use ann_os.Base.{
  ℕ, zero, suc, ◌+◌, ◌-◌, ◌*◌, ◌/◌, ◌⊎◌, inl, inr, add32, mul32, ◌^◌, ◌≤◌, ◌<◌, ◌≡◌, refl, ◌↔◌, ◌≢◌,
  true, false, arith, bit_and, some, List, [], ◌∷◌, get_elem?, Outcome, ok, panic, dec_lt,
}
use ann_os.Pmm.{PmmZone, Pmm, mmio}
use ann_os.Pmm.Bitmap.{check_if_pages_free}
use ann_os.Pmm.Allocation.{
  first_offset, skips, page_address, take_run, allocate_in, allocate_from, allocate_physical,
}
use ann_os.Pmm.Allocation.Search.{search_total}
use ann_os.Pmm.Allocation.Pages.{Allocated, allocate_physical-Allocated, Allocated-FirstFree}

-- If no run of `n` free pages from the first free address on ends inside the zone, the run that
-- `AllocatePhysical` returns reaches past the zone's last page, into pages that the bitmap does
-- not describe.
pub allocate_physical_past_end :
    (fuel : ℕ) (pmm : Pmm) (n type : ℕ) {addr : ℕ} {pmm' : Pmm}
    → fuel < 2 ^ 31
    → allocate_physical fuel pmm n type ≡ ok (addr, pmm')
    → (a : Allocated fuel pmm n type addr pmm') × (((k : ℕ)
          → first_offset a.zone ≤ k
          → k + n ≤ a.zone.pagecount
          → check_if_pages_free pmm.mem a.zone.alloc_bitmap k n ≡ false)
        → a.zone.pagecount < a.offset + n)
allocate_physical_past_end fuel pmm n type {addr} {pmm'} small h = (a, past)
  where
    a : Allocated fuel pmm n type addr pmm'
    a = allocate_physical-Allocated fuel pmm n type h

    past :
        ((k : ℕ)
          → first_offset a.zone ≤ k
          → k + n ≤ a.zone.pagecount
          → check_if_pages_free pmm.mem a.zone.alloc_bitmap k n ≡ false)
        → a.zone.pagecount < a.offset + n
    past full = elim (dec_lt a.zone.pagecount (a.offset + n)) [
      | yes lt ↦ lt
      | no ge ↦
          let f = Allocated-FirstFree fuel pmm n type small a in
          absurd (ground (arith, full a.offset f.from (omega arith), f.free))
    ]

abbrev exhausted : (A : Type 0) → Outcome A
exhausted A = panic "pmm: AllocatePhysical: phys memory exhausted, no suitable zones"

allocate_from-exhausted :
    (fuel : ℕ) (pmm : Pmm) (zones : List PmmZone) (i n type : ℕ)
    → ((k : ℕ) (zone : PmmZone) → get_elem? zones k ≡ some zone → skips zone n type ≡ true)
    → allocate_from fuel pmm zones i n type ≡ exhausted (ℕ × Pmm)
unfolding allocate_from
allocate_from-exhausted fuel pmm [] i n type h = refl
allocate_from-exhausted fuel pmm (z ∷ zs) i n type h =
    rw (h 0 z refl)
      (allocate_from-exhausted fuel pmm zs (i + 1) n type (λ k zone e. h (suc k) zone e))

allocate_in-ne-exhausted :
    (fuel : ℕ) (pmm : Pmm) (i : ℕ) (zone : PmmZone) (n : ℕ)
    → allocate_in fuel pmm i zone n ≢ exhausted (ℕ × Pmm)
unfolding allocate_in
allocate_in-ne-exhausted fuel pmm i zone n = ground arith

allocate_from-skips :
    (fuel : ℕ) (pmm : Pmm) (zones : List PmmZone) (i n type : ℕ)
    → allocate_from fuel pmm zones i n type ≡ exhausted (ℕ × Pmm)
    → (k : ℕ) (zone : PmmZone) → get_elem? zones k ≡ some zone
    → skips zone n type ≡ true
unfolding allocate_from
allocate_from-skips fuel pmm [] i n type h k zone at = absurd (cc)
allocate_from-skips fuel pmm (z ∷ zs) i n type h zero zone at =
    ground (arith, allocate_in-ne-exhausted fuel pmm i z n)
allocate_from-skips fuel pmm (z ∷ zs) i n type h (suc k) zone at =
    allocate_from-skips fuel pmm zs (i + 1) n type
      (ground (arith, allocate_in-ne-exhausted fuel pmm i z n)) k zone at

-- A zone that ends below 4 GiB, with its first free address behind its start.
abbrev pub Bounded : PmmZone → Type 0
Bounded zone =
    (zone.start ≤ zone.first_free_addr)
    × (zone.first_free_addr < 2 ^ 32)
    × (zone.start + zone.pagecount * 4096 < 2 ^ 32)

-- At most `n` whole pages of the zone are not before its first free address.
abbrev pub Short : PmmZone → ℕ → Type 0
Short zone n = zone.pagecount ≤ (zone.first_free_addr - zone.start) / 4096 + n

skips_iff :
    (zone : PmmZone) (n type : ℕ)
    → Bounded zone
    → n < 2 ^ 31
    → (skips zone n type ≡ true) ↔ ((bit_and zone.type type ≡ 0) ⊎ Short zone n)
unfolding skips
skips_iff zone n type (ordered, small, inside) few =
    let end : add32 zone.start (mul32 zone.pagecount 4096) ≡ zone.start + zone.pagecount * 4096 =
      omega arith in
    let first : first_offset zone ≡ (zone.first_free_addr - zone.start) / 4096 = omega arith in
    let after : add32 ((zone.first_free_addr - zone.start) / 4096) n
        ≡ (zone.first_free_addr - zone.start) / 4096 + n =
      omega arith in
    let full : zone.start + zone.pagecount * 4096 ≤ zone.first_free_addr
        → zone.pagecount ≤ (zone.first_free_addr - zone.start) / 4096 =
      λ le. omega arith in
    (
      (λ skipped. elim (dec_lt ((zone.first_free_addr - zone.start) / 4096 + n) zone.pagecount) [
        | no short ↦ inr (omega arith)
        | yes more ↦ inl (let s = rw (end, first, after) at skipped in ground arith)
      ]),
      (λ why.
          rw (end, first, after) (elim why [ inl e ↦ ground arith | inr short ↦ ground arith ])),
    )

-- For a type without the MMIO flag, fewer than 2 ^ 31 pages, and zones that end below 4 GiB with
-- their first free address behind their start: `AllocatePhysical` panics with `phys memory
-- exhausted` exactly when every zone shares no flag with the type or has at most n pages that are
-- not before its first free address, so also where exactly n are left.
pub allocate_physical-exhausted_iff :
    (fuel : ℕ) (pmm : Pmm) (n type : ℕ)
    → bit_and type mmio ≡ 0
    → n < 2 ^ 31
    → ((k : ℕ) (zone : PmmZone) → get_elem? pmm.mmap k ≡ some zone → Bounded zone)
    → (allocate_physical fuel pmm n type
        ≡ panic "pmm: AllocatePhysical: phys memory exhausted, no suitable zones")
      ↔ ((k : ℕ) (zone : PmmZone)
          → get_elem? pmm.mmap k ≡ some zone
          → (bit_and zone.type type ≡ 0) ⊎ Short zone n)
unfolding allocate_physical
allocate_physical-exhausted_iff fuel pmm n type plain few bounded = rw plain (
  (λ panics k zone there.
      (skips_iff zone n type (bounded k zone there) few).0
        (allocate_from-skips fuel pmm pmm.mmap 0 n type panics k zone there)),
  (λ unsuitable. allocate_from-exhausted fuel pmm pmm.mmap 0 n type (λ k zone there.
      (skips_iff zone n type (bounded k zone there) few).1 (unsuitable k zone there))),
)

allocate_from_total :
    (fuel : ℕ) (pmm : Pmm) (zones : List PmmZone) (i n type j d : ℕ) (zone : PmmZone)
    → fuel < 2 ^ 31
    → get_elem? zones j ≡ some zone
    → skips zone n type ≡ false
    → ((k : ℕ) (other : PmmZone)
        → k < j
        → get_elem? zones k ≡ some other
        → skips other n type ≡ true)
    → d < fuel
    → check_if_pages_free pmm.mem zone.alloc_bitmap (first_offset zone + d) n ≡ true
    → (addr : ℕ) × (pmm' : Pmm) × (allocate_from fuel pmm zones i n type ≡ ok (addr, pmm'))
unfolding allocate_from
allocate_from_total fuel pmm [] i n type j d zone small at suits before lt free = absurd (cc)
allocate_from_total fuel pmm (z ∷ zs) i n type zero d zone small at suits before lt free =
    let e : z ≡ zone = cc in
    let (r, found) =
      search_total fuel pmm.mem zone.alloc_bitmap (first_offset zone) n d (omega arith) lt free in
    (
      page_address zone r,
      take_run pmm i zone n r,
      rw (e, suits) (unfold allocate_in in rw (found, allocate_in)),
    )
allocate_from_total fuel pmm (z ∷ zs) i n type (suc j) d zone small at suits before lt free =
    rw (before 0 z (omega arith) refl) (
      allocate_from_total fuel pmm zs (i + 1) n type j d zone small at suits
        (λ k other l e. before (suc k) other (omega arith) e) lt free)

-- For a type without the MMIO flag, AllocatePhysical returns, with a number of rounds below 2 ^ 31,
-- if in the first zone that it does not pass over n pages are free at some distance d past the
-- first free address: d + 1 rounds of the inner loop are enough.
pub allocate_physical_total :
    (fuel : ℕ) (pmm : Pmm) (n type j d : ℕ) (zone : PmmZone)
    → fuel < 2 ^ 31
    → bit_and type mmio ≡ 0
    → get_elem? pmm.mmap j ≡ some zone
    → skips zone n type ≡ false
    → ((k : ℕ) (other : PmmZone)
        → k < j
        → get_elem? pmm.mmap k ≡ some other
        → skips other n type ≡ true)
    → d < fuel
    → check_if_pages_free pmm.mem zone.alloc_bitmap (first_offset zone + d) n ≡ true
    → (addr : ℕ) × (pmm' : Pmm) × (allocate_physical fuel pmm n type ≡ ok (addr, pmm'))
unfolding allocate_physical
allocate_physical_total fuel pmm n type j d zone small plain at suits before lt free =
    rw plain (allocate_from_total fuel pmm pmm.mmap 0 n type j d zone small at suits before lt free)
