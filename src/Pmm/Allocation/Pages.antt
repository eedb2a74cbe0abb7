-- ===== src/Pmm/Allocation/Pages.antt =====
-- What `AllocatePhysical` returns: a run of free pages of a zone of the wanted type, which it
-- marks as mapped.
use ann_os.Base.{
  ℕ, suc, ◌+◌, ◌-◌, ◌^◌, ◌≤◌, ◌<◌, ◌≡◌, refl, inl, inr, ◌≢◌, Bool-cases, true, false, ◌||◌, arith,
  bit_and, ◌==◌, some, Option-cases, List, [], ◌∷◌, get_elem?, ok,
}
use ann_os.Pmm.{PmmZone, Pmm, mmio}
use ann_os.Pmm.Bitmap.{check_if_pages_free}
use ann_os.Pmm.Bitmap.Pages.{
  is_mapped, in_run, check_if_pages_free_iff, is_mapped-map_pages_in_bitmap,
}
use ann_os.Pmm.Allocation.{
  search, first_offset, skips, page_address, take_run, allocate_in, allocate_from,
  allocate_physical,
}
use ann_os.Pmm.Allocation.Search.{FirstFree, search-FirstFree}

-- Where the pages of an allocation come from.
pub record Allocated (fuel : ℕ) (pmm : Pmm) (n type addr : ℕ) (pmm' : Pmm) : Type 0 where
  pub index : ℕ
  pub zone : PmmZone
  pub offset : ℕ
  pub at : get_elem? pmm.mmap index ≡ some zone
  pub suits : skips zone n type ≡ false
  pub found : search fuel pmm.mem zone.alloc_bitmap (first_offset zone) n ≡ some offset
  pub addr_eq : addr ≡ page_address zone offset
  pub after : pmm' ≡ take_run pmm index zone n offset

allocate_in-ok :
    (fuel : ℕ) (pmm : Pmm) (i : ℕ) (zone : PmmZone) (n : ℕ) {addr : ℕ} {pmm' : Pmm}
    → allocate_in fuel pmm i zone n ≡ ok (addr, pmm')
    → (offset : ℕ) × (search fuel pmm.mem zone.alloc_bitmap (first_offset zone) n ≡ some offset)
      × (addr ≡ page_address zone offset)
      × (pmm' ≡ take_run pmm i zone n offset)
unfolding allocate_in
allocate_in-ok fuel pmm i zone n h =
    elim (Option-cases (search fuel pmm.mem zone.alloc_bitmap (first_offset zone) n)) [
      | inl e ↦ absurd (ground arith)
      | inr (r, e) ↦ (r, e, ground arith, cc (rw (e, allocate_in) at h))
    ]

allocate_from-Allocated :
    (fuel : ℕ) (pmm : Pmm) (zones : List PmmZone) (i n type : ℕ) {addr : ℕ} {pmm' : Pmm}
    → ((k : ℕ) (zone : PmmZone)
        → get_elem? zones k ≡ some zone
        → get_elem? pmm.mmap (i + k) ≡ some zone)
    → allocate_from fuel pmm zones i n type ≡ ok (addr, pmm')
    → Allocated fuel pmm n type addr pmm'
unfolding allocate_from
allocate_from-Allocated fuel pmm [] i n type at h = absurd (cc)
allocate_from-Allocated fuel pmm (z ∷ zs) i n type at h = elim (Bool-cases (skips z n type)) [
  | inl skip ↦
      allocate_from-Allocated fuel pmm zs (i + 1) n type
        (λ k zone e. let f : i + 1 + k ≡ i + suc k = omega arith in rw f (at (suc k) zone e))
        (rw skip at h)
  | inr suits ↦
      let (offset, found, addr_eq, after) = allocate_in-ok fuel pmm i z n (rw suits at h) in
      record {
        index = i;
        zone = z;
        offset = offset;
        at = let f : i + 0 ≡ i = omega arith in rw f at (at 0 z refl);
        suits = suits;
        found = found;
        addr_eq = addr_eq;
        after = after;
      }
]

pub allocate_physical-Allocated :
    (fuel : ℕ) (pmm : Pmm) (n type : ℕ) {addr : ℕ} {pmm' : Pmm}
    → allocate_physical fuel pmm n type ≡ ok (addr, pmm')
    → Allocated fuel pmm n type addr pmm'
unfolding allocate_physical
allocate_physical-Allocated fuel pmm n type h = elim (Bool-cases (bit_and type mmio == 0)) [
  | inl plain ↦
      allocate_from-Allocated fuel pmm pmm.mmap 0 n type
        (λ k zone e. let f : 0 + k ≡ k = omega arith in rw f e) (rw plain at h)
  | inr bad ↦ absurd (ground arith)
]

first_offset-lt : (zone : PmmZone) → first_offset zone < 2 ^ 20
first_offset-lt zone = omega arith

pub Allocated-FirstFree :
    (fuel : ℕ) (pmm : Pmm) (n type : ℕ) {addr : ℕ} {pmm' : Pmm}
    → fuel < 2 ^ 31
    → (a : Allocated fuel pmm n type addr pmm')
    → FirstFree pmm.mem a.zone.alloc_bitmap (first_offset a.zone) n a.offset
Allocated-FirstFree fuel pmm n type small a =
    search-FirstFree fuel pmm.mem a.zone.alloc_bitmap (first_offset a.zone) n
      (omega (arith, first_offset-lt a.zone)) a.found

-- The pages of the run were free before the allocation.
pub Allocated-free :
    (fuel : ℕ) (pmm : Pmm) (n type : ℕ) {addr : ℕ} {pmm' : Pmm}
    → fuel < 2 ^ 31
    → (a : Allocated fuel pmm n type addr pmm') → (k : ℕ) → k < n
    → is_mapped pmm.mem a.zone.alloc_bitmap (a.offset + k) ≡ false
Allocated-free fuel pmm n type small a =
    (check_if_pages_free_iff _ _ _ _).0 (Allocated-FirstFree fuel pmm n type small a).free

-- Afterwards the run is mapped, and the other pages of the bitmap are as they were.
pub Allocated-mapped :
    (fuel : ℕ) (pmm : Pmm) (n type : ℕ) {addr : ℕ} {pmm' : Pmm}
    → (a : Allocated fuel pmm n type addr pmm') → (q : ℕ)
    → is_mapped pmm'.mem a.zone.alloc_bitmap q
      ≡ (in_run a.offset n q || is_mapped pmm.mem a.zone.alloc_bitmap q)
Allocated-mapped fuel pmm n type a q =
    rw (a.after)
      (unfold take_run in is_mapped-map_pages_in_bitmap pmm.mem a.zone.alloc_bitmap a.offset n q)

-- An address that AllocatePhysical returns, in fewer than 2 ^ 31 rounds of its inner loop, is the
-- start of a zone whose type shares a flag with the wanted type plus a number of pages, `offset`,
-- in 32 bits; that can be past the zone's last page. The bits of the n pages from `offset` on were
-- clear in the zone's bitmap, no run of n clear bits starts between the zone's first free address
-- and there, and afterwards exactly those bits are set in addition.
pub allocate_physical-pages :
    (fuel : ℕ) (pmm : Pmm) (n type : ℕ) {addr : ℕ} {pmm' : Pmm}
    → fuel < 2 ^ 31
    → allocate_physical fuel pmm n type ≡ ok (addr, pmm')
    → (i : ℕ) × (zone : PmmZone) × (offset : ℕ) × (get_elem? pmm.mmap i ≡ some zone)
      × (bit_and zone.type type ≢ 0)
      × (addr ≡ page_address zone offset)
      × ((k : ℕ) → k < n → is_mapped pmm.mem zone.alloc_bitmap (offset + k) ≡ false)
      × ((k : ℕ)
          → first_offset zone ≤ k
          → k < offset
          → check_if_pages_free pmm.mem zone.alloc_bitmap k n ≡ false)
      × ((q : ℕ)
          → is_mapped pmm'.mem zone.alloc_bitmap q
            ≡ (in_run offset n q || is_mapped pmm.mem zone.alloc_bitmap q))
allocate_physical-pages fuel pmm n type small h =
    let a = allocate_physical-Allocated fuel pmm n type h in
    (
      a.index,
      a.zone,
      a.offset,
      a.at,
      suited a.zone a.suits,
      a.addr_eq,
      Allocated-free fuel pmm n type small a,
      (Allocated-FirstFree fuel pmm n type small a).least,
      Allocated-mapped fuel pmm n type a,
    )
  where
    suited : (zone : PmmZone) → skips zone n type ≡ false → bit_and zone.type type ≢ 0
    suited zone h e = absurd (unfold skips in ground arith)

-- Two successive allocations out of one bitmap never hand out the same page.
allocate_physical_twice :
    (fuel fuel' : ℕ) (pmm : Pmm) (n m type type' : ℕ) {addr addr' : ℕ} {pmm' pmm'' : Pmm}
    → fuel' < 2 ^ 31
    → allocate_physical fuel pmm n type ≡ ok (addr, pmm')
    → allocate_physical fuel' pmm' m type' ≡ ok (addr', pmm'')
    → (a : Allocated fuel pmm n type addr pmm') × (b : Allocated fuel' pmm' m type' addr' pmm'')
      × (a.zone.alloc_bitmap ≡ b.zone.alloc_bitmap
          → (q : ℕ) → in_run a.offset n q ≡ true
          → in_run b.offset m q ≡ false)
allocate_physical_twice fuel fuel' pmm n m type type' {addr} {addr'} {pmm'} {pmm''} small h h' =
    (a, b, apart)
  where
    a : Allocated fuel pmm n type addr pmm'
    a = allocate_physical-Allocated fuel pmm n type h

    b : Allocated fuel' pmm' m type' addr' pmm''
    b = allocate_physical-Allocated fuel' pmm' m type' h'

    apart :
        a.zone.alloc_bitmap ≡ b.zone.alloc_bitmap
        → (q : ℕ) → in_run a.offset n q ≡ true
        → in_run b.offset m q ≡ false
    apart e q first = elim (Bool-cases (in_run b.offset m q)) [
      | inr other ↦ other
      | inl second ↦
          let s : b.offset + (q - b.offset) ≡ q = ground arith in
          let free = Allocated-free fuel' pmm' m type' small b (q - b.offset) (ground arith) in
          absurd (ground (arith, rw (s, ← e) at free, Allocated-mapped fuel pmm n type a q))
    ]
