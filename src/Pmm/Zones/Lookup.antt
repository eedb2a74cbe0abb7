-- ===== src/Pmm/Zones/Lookup.antt =====
-- Which zone `FindZone` finds, and what a change of `first_free_addr` leaves of the answer.
use ann_os.Base.{
  ℕ, zero, suc, ◌+◌, ◌*◌, ◌^◌, ◌≤◌, ◌<◌, ◌≡◌, ◌↔◌, true, false, Bool-cases, arith, subst, none,
  some, List, [], ◌∷◌, get_elem?, set, inl, inr,
}
use ann_os.Pmm.{PmmZone, Pmm, phys_page_size}
use ann_os.Pmm.Zones.{zone_end, in_zone, find_zone_from, find_zone}

-- In a zone that has pages and ends at 2 ^ 32 at most, `FindZone` tests for the addresses of the
-- zone's pages.
pub in_zone_iff :
    (zone : PmmZone) (addr : ℕ)
    → 0 < zone.pagecount
    → zone.start + zone.pagecount * phys_page_size ≤ 2 ^ 32
    → (in_zone zone addr ≡ true)
      ↔ ((zone.start ≤ addr) × (addr < zone.start + zone.pagecount * phys_page_size))
unfolding in_zone zone_end
in_zone_iff zone addr h k = ground arith

-- The zone at index `k` is the first that holds `addr`.
pub record FirstZone (zones : List PmmZone) (addr k : ℕ) (zone : PmmZone) : Type 0 where
  pub at : get_elem? zones k ≡ some zone
  pub holds : in_zone zone addr ≡ true
  pub first :
      (j : ℕ) (other : PmmZone)
      → j < k
      → get_elem? zones j ≡ some other
      → in_zone other addr ≡ false

find_zone_from-FirstZone :
    (zones : List PmmZone) (i addr : ℕ) {j : ℕ} {zone : PmmZone}
    → find_zone_from zones i addr ≡ some (j, zone)
    → (k : ℕ) × (j ≡ i + k) × FirstZone zones addr k zone
unfolding find_zone_from
find_zone_from-FirstZone [] i addr h = absurd (cc)
find_zone_from-FirstZone (z ∷ zs) i addr {j} {zone} h = elim (Bool-cases (in_zone z addr)) [
  | inl hit ↦ (
    0,
    ground arith,
    record {
      at = ground arith;
      holds = ground arith;
      first = λ k other lt e. absurd (omega arith);
    },
  )
  | inr miss ↦ later miss (find_zone_from-FirstZone zs (i + 1) addr (rw miss at h))
]
  where
    later :
        in_zone z addr ≡ false
        → (k : ℕ) × (j ≡ i + 1 + k) × FirstZone zs addr k zone
        → (k : ℕ) × (j ≡ i + k) × FirstZone (z ∷ zs) addr k zone
    later miss (k, e, f) = (suc k, omega arith, record { at = f.at; holds = f.holds; first = skip })
      where
        skip :
            (j : ℕ) (other : PmmZone)
            → j < suc k
            → get_elem? (z ∷ zs) j ≡ some other
            → in_zone other addr ≡ false
        skip zero other lt at = ground arith
        skip (suc j) other lt at = f.first j other (omega arith) at

find_zone_from-none :
    (zones : List PmmZone) (i addr : ℕ)
    → find_zone_from zones i addr ≡ none
    → (j : ℕ) (zone : PmmZone) → get_elem? zones j ≡ some zone
    → in_zone zone addr ≡ false
unfolding find_zone_from
find_zone_from-none [] i addr h j zone e = absurd (cc)
find_zone_from-none (z ∷ zs) i addr h zero zone e = ground arith
find_zone_from-none (z ∷ zs) i addr h (suc j) zone e =
    find_zone_from-none zs (i + 1) addr (ground arith) j zone e

-- `FindZone` returns the first zone that holds the address.
pub find_zone-FirstZone :
    (pmm : Pmm) (addr : ℕ) {j : ℕ} {zone : PmmZone}
    → find_zone pmm addr ≡ some (j, zone)
    → FirstZone pmm.mmap addr j zone
unfolding find_zone
find_zone-FirstZone pmm addr {j} {zone} h =
    let (k, e, f) = find_zone_from-FirstZone pmm.mmap 0 addr h in
    subst (λ i. FirstZone pmm.mmap addr i zone) (omega arith) f

-- It returns the null pointer only if no zone holds the address.
pub find_zone-none :
    (pmm : Pmm) (addr : ℕ)
    → find_zone pmm addr ≡ none
    → (j : ℕ) (zone : PmmZone) → get_elem? pmm.mmap j ≡ some zone
    → in_zone zone addr ≡ false
unfolding find_zone
find_zone-none pmm addr h = find_zone_from-none pmm.mmap 0 addr h

in_zone_same_place :
    (z w : PmmZone) (addr : ℕ)
    → z.start ≡ w.start
    → z.pagecount ≡ w.pagecount
    → in_zone z addr ≡ in_zone w addr
unfolding in_zone zone_end
in_zone_same_place z w addr p q = rw (p, q)

find_zone_from-set :
    (zones : List PmmZone) (i k addr : ℕ) (zone zone' : PmmZone)
    → zone'.start ≡ zone.start
    → zone'.pagecount ≡ zone.pagecount
    → find_zone_from zones i addr ≡ some (i + k, zone)
    → find_zone_from (set zones k zone') i addr ≡ some (i + k, zone')
unfolding find_zone_from
find_zone_from-set [] i k addr zone zone' p q h = absurd (cc)
find_zone_from-set (z ∷ zs) i zero addr zone zone' p q h = elim (Bool-cases (in_zone z addr)) [
  | inl hit ↦ ground (arith, in_zone_same_place zone' zone addr p q)
  | inr miss ↦
      let (k, e, f) = find_zone_from-FirstZone zs (i + 1) addr (rw miss at h) in
      absurd (omega arith)
]
find_zone_from-set (z ∷ zs) i (suc k) addr zone zone' p q h = elim (Bool-cases (in_zone z addr)) [
  | inl hit ↦ absurd (ground arith)
  | inr miss ↦
      let e : i + suc k ≡ i + 1 + k = omega arith in
      rw (miss, e) (find_zone_from-set zs (i + 1) k addr zone zone' p q (rw (miss, e) at h))
]

-- Changing the first free address of a zone does not change which zone is found.
pub find_zone-set :
    (pmm pmm' : Pmm) (addr j : ℕ) (zone zone' : PmmZone)
    → zone'.start ≡ zone.start
    → zone'.pagecount ≡ zone.pagecount
    → find_zone pmm addr ≡ some (j, zone)
    → pmm'.mmap ≡ set pmm.mmap j zone'
    → find_zone pmm' addr ≡ some (j, zone')
unfolding find_zone
find_zone-set pmm pmm' addr j zone zone' p q h e =
    let z : 0 + j ≡ j = omega arith in
    rw e (rw z at (find_zone_from-set pmm.mmap 0 j addr zone zone' p q (rw z h)))
