-- ===== src/Pmm/Ownership/Invariant.antt =====
-- The invariant of a history of calls, and that it is kept by a call that changes the runs that
-- are out as it changes the pages of its zone.
use ann_os.Base.{
  ℕ, ◌+◌, ◌<◌, ◌≡◌, refl, sym, ap, ◌∙◌, ◌≢◌, Bool, arith, some, get_elem?, get_elem?-lt,
  get_elem?-set_self, get_elem?-set_ne, List, [], ℕ_discrete,
}
use ann_os.Pmm.{PmmZone, Pmm}
use ann_os.Pmm.Layout.{Layout, Layout-set}
use ann_os.Pmm.Mapping.Pages.{page_state}
use ann_os.Pmm.Ownership.{Run, bit, owners, Worked}

pub record Kept (zone : PmmZone) (pmm : Pmm) (i : ℕ) : Type 0 where
  pub now : PmmZone
  pub at : get_elem? pmm.mmap i ≡ some now
  pub same_bitmap : now.alloc_bitmap ≡ zone.alloc_bitmap
  pub same_count : now.pagecount ≡ zone.pagecount

pub record Inv (low : ℕ) (start : Pmm) (rs : List Run) (pmm : Pmm) : Type 0 where
  pub layout : Layout low pmm.mmap
  pub kept : (i : ℕ) (zone : PmmZone) → get_elem? start.mmap i ≡ some zone → Kept zone pmm i
  pub exact :
      (i : ℕ) (zone : PmmZone)
      → get_elem? start.mmap i ≡ some zone
      → (q : ℕ) → q < zone.pagecount
      → bit (page_state pmm zone q) ≡ bit (page_state start zone q) + owners rs i q

pub started-Inv : (low : ℕ) (start : Pmm) → Layout low start.mmap → Inv low start [] start
unfolding owners
started-Inv low start l = record {
  layout = l;
  kept = λ i zone at. record { now = zone; at = at; same_bitmap = refl; same_count = refl };
  exact = λ i zone at q inside. omega arith;
}

-- The runs changed as the pages of the zone did, and the runs of no other zone changed.
pub record Balanced (pmm : Pmm) (rs rs' : List Run) (i : ℕ) (zone : PmmZone) (pages : ℕ → Bool)
    : Type 0 where
  pub here :
      (q o : ℕ)
      → q < zone.pagecount
      → bit (page_state pmm zone q) ≡ o + owners rs i q
      → bit (pages q) + owners rs i q ≡ bit (page_state pmm zone q) + owners rs' i q
  pub elsewhere : (j : ℕ) → i ≢ j → (q : ℕ) → owners rs' j q ≡ owners rs j q

module _ (low : ℕ) (start pmm pmm' : Pmm) (rs rs' : List Run) (i : ℕ) (zone : PmmZone)
    (pages : ℕ → Bool) (inv : Inv low start rs pmm) (w : Worked pmm pmm' i zone pages)
    (b : Balanced pmm rs rs' i zone pages) where
  now_zone : (z : PmmZone) (at : get_elem? start.mmap i ≡ some z) → (inv.kept i z at).now ≡ zone
  now_zone z at = cc ((inv.kept i z at).at, w.at)

  step-Kept_here : (z : PmmZone) → get_elem? start.mmap i ≡ some z → Kept z pmm' i
  step-Kept_here z at =
      let k = inv.kept i z at in
      let e = now_zone z at in
      record {
        now = w.moved;
        at = rw (w.mmap_eq) (get_elem?-set_self pmm.mmap i w.moved (get_elem?-lt pmm.mmap i w.at));
        same_bitmap = w.same_bitmap ∙ rw e at (k.same_bitmap);
        same_count = w.same_count ∙ rw e at (k.same_count);
      }

  step-exact_here :
      (z : PmmZone)
      → get_elem? start.mmap i ≡ some z
      → (q : ℕ) → q < z.pagecount
      → bit (page_state pmm' z q) ≡ bit (page_state start z q) + owners rs' i q
  step-exact_here z at q inside =
      let k = inv.kept i z at in
      let e = now_zone z at in
      let bitmap : zone.alloc_bitmap ≡ z.alloc_bitmap = rw e at (k.same_bitmap) in
      let count : zone.pagecount ≡ z.pagecount = rw e at (k.same_count) in
      let after = ap bit (w.here q) in
      let before = inv.exact i z at q inside in
      let balance = b.here q (bit (page_state start z q)) (omega arith) (rw bitmap before) in
      omega (arith, rw bitmap at after, rw bitmap at balance)

  step-Kept : (j : ℕ) (z : PmmZone) → get_elem? start.mmap j ≡ some z → Kept z pmm' j
  step-Kept j z at =
      let k = inv.kept j z at in
      elim (ℕ_discrete i j) [
        | yes e ↦ rw (sym e) (step-Kept_here z (rw (sym e) at at))
        | no ne ↦ record {
          now = k.now;
          at = rw (w.mmap_eq, get_elem?-set_ne pmm.mmap w.moved ne) (k.at);
          same_bitmap = k.same_bitmap;
          same_count = k.same_count;
        }
      ]

  step-exact :
      (j : ℕ) (z : PmmZone)
      → get_elem? start.mmap j ≡ some z
      → (q : ℕ) → q < z.pagecount
      → bit (page_state pmm' z q) ≡ bit (page_state start z q) + owners rs' j q
  step-exact j z at q inside =
      let k = inv.kept j z at in
      elim (ℕ_discrete i j) [
        | yes e ↦ rw (sym e) (step-exact_here z (rw (sym e) at at) q inside)
        | no ne ↦
            let same : page_state pmm' k.now q ≡ page_state pmm k.now q =
              w.elsewhere j k.now k.at ne q (omega (arith, k.same_count)) in
            omega (
              arith,
              ap bit (rw (k.same_bitmap) at same),
              b.elsewhere j ne q,
              inv.exact j z at q inside,
            )
      ]

  pub step-Inv : Inv low start rs' pmm'
  step-Inv = record {
    layout =
        rw (w.mmap_eq)
          (Layout-set low pmm.mmap i zone w.moved w.at w.same_bitmap w.same_count inv.layout);
    kept = step-Kept;
    exact = step-exact;
  }
