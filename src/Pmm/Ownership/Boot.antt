-- ===== src/Pmm/Ownership/Boot.antt =====
-- Histories that begin with the constructor of src/PMM.cpp, which maps the kernel's own pages.
use ann_os.Base.{
  ℕ, zero, suc, ◌+◌, ◌^◌, ◌≤◌, ◌<◌, ◌≡◌, refl, ap, subst, ◌≢◌, true, arith, Memory, some, List, [],
  ◌∷◌, ◌++◌, get_elem?, ok,
}
use ann_os.Pmm.{MemoryMap, PmmZone, Pmm}
use ann_os.Pmm.Zones.{find_zone}
use ann_os.Pmm.Mapping.{failed, page_offset, map_pages, unmap_pages}
use ann_os.Pmm.Mapping.Pages.{page_state}
use ann_os.Pmm.Init.{tables_start, new_pmm}
use ann_os.Pmm.Init.Zones.{tables_size, build_zones-Layout}
use ann_os.Pmm.Init.Kernel.{bare, kernel_pages, new_pmm_cases, ok_addr, bare-AllFree}
use ann_os.Pmm.Ownership.{
  Run, run, bit, covers, owners, remove, Trace, started, allocated, mapped, unmapped,
}
use ann_os.Pmm.Ownership.Histories.{Trace-owners}

get_elem?-append_first :
    (rs os : List Run) (k : ℕ) {r : Run} → get_elem? rs k ≡ some r → get_elem? (rs ++ os) k ≡ some r
get_elem?-append_first [] os k at = absurd (cc)
get_elem?-append_first (x ∷ xs) os zero at = at
get_elem?-append_first (x ∷ xs) os (suc k) at = get_elem?-append_first xs os k at

remove-append :
    (rs os : List Run) (k : ℕ) {r : Run}
    → get_elem? rs k ≡ some r
    → remove (rs ++ os) k ≡ remove rs k ++ os
remove-append [] os k at = absurd (cc)
remove-append (x ∷ xs) os zero at = refl
remove-append (x ∷ xs) os (suc k) at = rw (remove-append xs os k at)

owners-append : (rs os : List Run) (i q : ℕ) → owners (rs ++ os) i q ≡ owners rs i q + owners os i q
unfolding owners
owners-append [] os i q = omega arith
owners-append (r ∷ rs) os i q = omega (arith, owners-append rs os i q)

owners-single : (r : Run) (i q : ℕ) → owners (r ∷ []) i q ≡ bit (covers r i q)
unfolding owners
owners-single r i q = omega arith

-- One history after another.
Trace-after :
    {first middle last : Pmm} {os rs : List Run}
    → Trace first os middle
    → Trace middle rs last
    → Trace first (rs ++ os) last
Trace-after before started = before
Trace-after before (allocated fuel n type t h small a fits) =
    allocated fuel n type (Trace-after before t) h small a fits
Trace-after before (mapped addr n t ne found done fits) =
    mapped addr n (Trace-after before t) ne found done fits
Trace-after {first} {os = os} before (unmapped {rs} {pmm} addr n k t found fits out) =
    subst (λ xs. Trace first xs (unmap_pages pmm addr n).1) (remove-append rs os k out)
      (unmapped addr n k (Trace-after before t) found fits (get_elem?-append_first rs os k out))

-- If the zones and bitmaps fit below 4 GiB, the kernel does not start at 0xffffffff, the
-- constructor returns, and the kernel's pages lie inside the zone of the kernel's start, then after
-- any history a page is mapped exactly if it is one of the kernel's or in one of the runs that are
-- out, never both and never in two runs.
pub new_pmm-Trace-owners :
    (m : Memory) (kernel_start virt_offset pool_start : ℕ) (areas : List MemoryMap) {pmm pmm' : Pmm}
    {rs : List Run} {k : ℕ} {kernel_zone : PmmZone}
    → tables_start pool_start areas + tables_size areas < 2 ^ 32
    → kernel_start ≢ failed
    → new_pmm m kernel_start virt_offset pool_start areas ≡ ok pmm
    → find_zone (bare m pool_start areas) kernel_start ≡ some (k, kernel_zone)
    → let n = kernel_pages m kernel_start virt_offset pool_start areas in
      let first = page_offset kernel_zone kernel_start in
      first + n ≤ kernel_zone.pagecount
      → Trace pmm rs pmm'
      → (i : ℕ) (zone : PmmZone) → get_elem? (bare m pool_start areas).mmap i ≡ some zone
      → (q : ℕ) → q < zone.pagecount
      → (bit (page_state pmm' zone q) ≡ bit (covers (run k first n) i q) + owners rs i q)
        × (owners rs i q ≤ 1)
        × (covers (run k first n) i q ≡ true → owners rs i q ≡ 0)
new_pmm-Trace-owners m kernel_start virt_offset pool_start areas {pmm} {pmm'} {rs} {k} {kernel_zone}
      small ne h found fits t i zone at q inside =
    let (e, once, _) =
      Trace-owners (tables_start pool_start areas) boot (build_zones-Layout m _ areas small)
        (Trace-after before t) i zone at q inside in
    let free = bare-AllFree m pool_start areas small i zone at q inside in
    let split = owners-append rs (taken ∷ []) i q in
    let single = owners-single taken i q in
    (omega (arith, ap bit free), omega arith, λ c. omega (arith, ap bit c))
  where
    boot : Pmm
    boot = bare m pool_start areas

    n : ℕ
    n = kernel_pages m kernel_start virt_offset pool_start areas

    taken : Run
    taken = run k (page_offset kernel_zone kernel_start) n

    passed :
        ((map_pages boot kernel_start n).0 ≢ failed) × (pmm ≡ (map_pages boot kernel_start n).1)
    passed = new_pmm_cases m kernel_start virt_offset pool_start areas h

    before : Trace boot (taken ∷ []) pmm
    before =
        rw (passed.1)
          (mapped kernel_start n started ne found (ok_addr boot kernel_start n passed.0) fits)
