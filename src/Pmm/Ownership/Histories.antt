-- ===== src/Pmm/Ownership/Histories.antt =====
-- Every history keeps the invariant: the bitmaps are exactly the pages that were mapped at the
-- start and those of the runs that are out.
use ann_os.Base.{
  ℕ, ◌+◌, ◌-◌, ◌≤◌, ◌<◌, ◌≡◌, refl, ap, inl, inr, ◌≢◌, Bool, true, false, ◌||◌, xor, arith, some,
  get_elem?, List, ◌∷◌,
}
use ann_os.Pmm.{PmmZone, Pmm}
use ann_os.Pmm.Layout.{Layout}
use ann_os.Pmm.Bitmap.Pages.{in_run}
use ann_os.Pmm.Mapping.{page_offset}
use ann_os.Pmm.Mapping.Pages.{page_state}
use ann_os.Pmm.Mapping.Cases.{map_pages_cases}
use ann_os.Pmm.Mapping.RoundTrip.{free_in_run}
use ann_os.Pmm.Allocation.Pages.{Allocated-free}
use ann_os.Pmm.Ownership.{
  Run, run, bit, covers, owners, remove, owners-remove, Trace, started, allocated, mapped, unmapped,
}
use ann_os.Pmm.Ownership.Steps.{allocate_physical-Worked, map_pages-Worked, unmap_pages-Worked}
use ann_os.Pmm.Ownership.Invariant.{Inv, Balanced, started-Inv, step-Inv}

covers-other : (i first count j q : ℕ) → i ≢ j → covers (run i first count) j q ≡ false
covers-other i first count j q ne = ground arith

covers-same : (i first count q : ℕ) → covers (run i first count) i q ≡ in_run first count q
covers-same i first count q = ground arith

bit_or_free :
    (run before : Bool) → (run ≡ true → before ≡ false) → bit (run || before) ≡ bit run + bit before
bit_or_free true before h = rw (h refl)
bit_or_free false before h = omega arith

taken-Balanced :
    (pmm : Pmm) (rs : List Run) (i first n : ℕ) (zone : PmmZone)
    → ((q : ℕ) → in_run first n q ≡ true → page_state pmm zone q ≡ false)
    → Balanced pmm rs (run i first n ∷ rs) i zone (λ q. in_run first n q || page_state pmm zone q)
unfolding owners
taken-Balanced pmm rs i first n zone free = record {
  here = λ q o inside e. omega (
    arith,
    bit_or_free (in_run first n q) (page_state pmm zone q) (free q),
    ap bit (covers-same i first n q),
  );
  elsewhere = λ j ne q. omega (arith, ap bit (covers-other i first n j q ne));
}

bit-xor_owned :
    (run before : Bool) (o : ℕ)
    → bit before ≡ o + bit run
    → bit (xor run before) + bit run ≡ bit before
bit-xor_owned true true o h = refl
bit-xor_owned true false o h = absurd (omega arith)
bit-xor_owned false before o h = omega arith

returned-Balanced :
    (pmm : Pmm) (rs : List Run) (k i first n : ℕ) (zone : PmmZone)
    → get_elem? rs k ≡ some (run i first n)
    → Balanced pmm rs (remove rs k) i zone (λ q. xor (in_run first n q) (page_state pmm zone q))
returned-Balanced pmm rs k i first n zone out = record {
  here = λ q o inside e.
      let r = owners-remove rs k out i q in
      let c = ap bit (covers-same i first n q) in
      omega (
        arith,
        bit-xor_owned (in_run first n q) (page_state pmm zone q) (o + owners (remove rs k) i q)
            (omega (arith)),
      );
  elsewhere =
      λ j ne q. omega (arith, ap bit (covers-other i first n j q ne), owners-remove rs k out j q);
}

Trace-Inv :
    (low : ℕ) (start : Pmm) {rs : List Run} {pmm : Pmm}
    → Layout low start.mmap
    → Trace start rs pmm
    → Inv low start rs pmm
Trace-Inv low start l started = started-Inv low start l
Trace-Inv low start l (allocated {rs} {pmm} {pmm'} fuel n type t h small a fits) =
    let inv = Trace-Inv low start l t in
    step-Inv low start pmm pmm' rs _ a.index a.zone _ inv
      (allocate_physical-Worked fuel pmm low n type inv.layout a fits)
      (taken-Balanced pmm rs a.index a.offset n a.zone free)
  where
    free : (q : ℕ) → in_run a.offset n q ≡ true → page_state pmm a.zone q ≡ false
    free q inside =
        let e : a.offset + (q - a.offset) ≡ q = ground arith in
        rw e at (Allocated-free fuel pmm n type (omega arith) a (q - a.offset) (ground arith))
Trace-Inv low start l (mapped {rs} {pmm} {i} {zone} addr n t ne found done fits) =
    let inv = Trace-Inv low start l t in
    step-Inv low start pmm _ rs _ i zone _ inv
      (map_pages-Worked pmm low addr n inv.layout ne found done fits)
      (taken-Balanced pmm rs i (page_offset zone addr) n zone free)
  where
    free : (q : ℕ) → in_run (page_offset zone addr) n q ≡ true → page_state pmm zone q ≡ false
    free q inside = elim (map_pages_cases pmm addr n) [
      | inl h ↦ absurd (ne (ground arith))
      | inr (a, h) ↦
          let e : zone ≡ a.zone = cc (a.found) in
          rw e (free_in_run pmm a.zone addr n q a.free (rw e at inside))
    ]
Trace-Inv low start l (unmapped {rs} {pmm} {i} {zone} addr n k t found fits out) =
    let inv = Trace-Inv low start l t in
    step-Inv low start pmm _ rs _ i zone _ inv
      (unmap_pages-Worked pmm low addr n inv.layout found fits)
      (returned-Balanced pmm rs k i (page_offset zone addr) n zone out)

-- After any sequence of successful calls of `AllocatePhysical`, in fewer than 2 ^ 31 rounds of its
-- search, and `MapPages` whose runs lie inside their zones, and of `UnmapPages` on runs that are
-- out, on a manager whose bitmaps lie one behind the other: a page of a zone is mapped exactly as
-- often as it was at the start plus the number of runs that hold it, so it is in one run at most,
-- and in none if it was mapped at the start.
pub Trace-owners :
    (low : ℕ) (start : Pmm) {rs : List Run} {pmm : Pmm}
    → Layout low start.mmap
    → Trace start rs pmm
    → (i : ℕ) (zone : PmmZone) → get_elem? start.mmap i ≡ some zone
    → (q : ℕ) → q < zone.pagecount
    → (bit (page_state pmm zone q) ≡ bit (page_state start zone q) + owners rs i q)
      × (owners rs i q ≤ 1)
      × (page_state start zone q ≡ true → owners rs i q ≡ 0)
Trace-owners low start {rs} {pmm} l t i zone at q inside =
    let e = (Trace-Inv low start l t).exact i zone at q inside in
    (
      e,
      at_most (page_state pmm zone q) _ _ e,
      λ h. all_at_start (page_state pmm zone q) _ (rw h at e),
    )
  where
    at_most : (b c : Bool) (o : ℕ) → bit b ≡ bit c + o → o ≤ 1
    at_most true c o e = omega arith
    at_most false c o e = omega arith

    all_at_start : (b : Bool) (o : ℕ) → bit b ≡ 1 + o → o ≡ 0
    all_at_start true o e = omega arith
    all_at_start false o e = omega arith
