-- ===== src/Pmm/Allocation/Search.antt =====
-- The inner loop of `AllocatePhysical`: it finds the first free run, and ends if there is one.
use ann_os.Base.{
  ℕ, zero, suc, ◌+◌, ◌%◌, ◌^◌, ◌≤◌, ◌<◌, ◌≡◌, inl, inr, Bool-cases, true, false, if◌then◌else◌,
  arith, ◌∙◌, dec_lt, Memory, some,
}
use ann_os.Pmm.Bitmap.{check_if_pages_free}
use ann_os.Pmm.Allocation.{search}

-- The run found at `r` is free, and none that starts between `first` and `r` is.
pub record FirstFree (m : Memory) (bitmap first n r : ℕ) : Type 0 where
  pub free : check_if_pages_free m bitmap r n ≡ true
  pub from : first ≤ r
  pub least : (k : ℕ) → first ≤ k → k < r → check_if_pages_free m bitmap k n ≡ false

search_step :
    (fuel : ℕ) (m : Memory) (bitmap first n : ℕ)
    → first + 1 < 2 ^ 32
    → search (suc fuel) m bitmap first n ≡ (
        if check_if_pages_free m bitmap first n
        then some first
        else search fuel m bitmap (first + 1) n)
unfolding search
search_step fuel m bitmap first n small =
    let next : (first + 1) % 2 ^ 32 ≡ first + 1 = omega arith in rw next

FirstFree-later :
    (m : Memory) (bitmap first n r : ℕ)
    → check_if_pages_free m bitmap first n ≡ false
    → FirstFree m bitmap (first + 1) n r
    → FirstFree m bitmap first n r
FirstFree-later m bitmap first n r taken f = record {
  free = f.free;
  from = omega (arith, f.from);
  least = least;
}
  where
    least : (k : ℕ) → first ≤ k → k < r → check_if_pages_free m bitmap k n ≡ false
    least k low high = elim (dec_lt first k) [
      | yes above ↦ f.least k (omega arith) high
      | no not_above ↦ let e : k ≡ first = omega arith in rw e taken
    ]

pub search-FirstFree :
    (fuel : ℕ) (m : Memory) (bitmap first n : ℕ) {r : ℕ}
    → first + fuel < 2 ^ 32
    → search fuel m bitmap first n ≡ some r
    → FirstFree m bitmap first n r
search-FirstFree zero m bitmap first n small h = absurd (unfold search in cc)
search-FirstFree (suc fuel) m bitmap first n {r} small h =
    elim (Bool-cases (check_if_pages_free m bitmap first n)) [
      | inl free ↦
          let e : r ≡ first = ground (arith, search_step fuel m bitmap first n (omega arith)) in
          rw e
            (record { free = free; from = omega arith; least = λ k low high. absurd (omega arith) })
      | inr taken ↦ FirstFree-later m bitmap first n r taken (
          search-FirstFree fuel m bitmap (first + 1) n (omega arith)
            (ground (arith, search_step fuel m bitmap first n (omega arith))))
    ]

-- If the pages from `first + d` on are free, `d + 1` rounds are enough.
pub search_total :
    (fuel : ℕ) (m : Memory) (bitmap first n d : ℕ)
    → first + fuel < 2 ^ 32
    → d < fuel
    → check_if_pages_free m bitmap (first + d) n ≡ true
    → (r : ℕ) × (search fuel m bitmap first n ≡ some r)
search_total zero m bitmap first n d small lt h = absurd (omega arith)
search_total (suc fuel) m bitmap first n zero small lt h =
    let e : first + 0 ≡ first = omega arith in
    (first, search_step fuel m bitmap first n (omega arith) ∙ rw (rw e at h))
search_total (suc fuel) m bitmap first n (suc d) small lt h =
    elim (Bool-cases (check_if_pages_free m bitmap first n)) [
      | inl free ↦ (first, search_step fuel m bitmap first n (omega arith) ∙ rw free)
      | inr taken ↦
          let e : first + suc d ≡ first + 1 + d = omega arith in
          let (r, found) =
            search_total fuel m bitmap (first + 1) n d (omega arith) (omega arith) (rw e at h) in
          (r, search_step fuel m bitmap first n (omega arith) ∙ rw (taken, found))
    ]
