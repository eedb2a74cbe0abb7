-- ===== src/Vmm/Tables.antt =====
-- What MapPhysicalToVirtual of src/arch/x86/VMM.cpp leaves in the page tables.
use ann_os.Base.{
  ℕ, zero, suc, ◌+◌, ◌*◌, ◌/◌, ◌%◌, ◌^◌, ◌≤◌, ◌<◌, ◌≡◌, ◌≢◌, ap, sym, ◌∙◌, Bool-cases, inl, inr,
  leb, ◌==◌, if◌then◌else◌, bit_and, bit_or, add32, Outcome, ok, >>=-eq-ok, ok-injective, arith,
}
use ann_os.Pmm.{Pmm, normal}
use ann_os.Pmm.Allocation.{allocate_physical}
use ann_os.Vmm.{
  Vmm, Frames, vmm_page_size, dir_slot, present, put_word, set_dir, map_page_directory_index,
  ensure_first, ensure_next, map_entries, map_physical_to_virtual,
}

set_dir-other :
    (frames : Frames) (d entry : ℕ) (window : ℕ → ℕ) (t : ℕ)
    → t < 1023 * 1024
    → t / 1024 ≢ d
    → set_dir frames d entry window t ≡ window t
unfolding set_dir
set_dir-other frames d entry window t low ne = ground arith

map_page_directory_index-other :
    (frames : Frames) (fuel d t : ℕ) (v : Vmm) {w : Vmm}
    → t < 1023 * 1024
    → t / 1024 ≢ d
    → map_page_directory_index frames fuel d v ≡ ok w
    → w.window t ≡ v.window t
unfolding map_page_directory_index
map_page_directory_index-other frames fuel d t v {w} low ne h = elim (Bool-cases (leb 1024 d)) [
  | inl big ↦ absurd (let g = rw big at h in cc)
  | inr small ↦
      let (a, e, g) =
        >>=-eq-ok (allocate_physical fuel v.pmm 1 normal) with_frame (rw small at h) in
      ap (λ (u : Vmm). u.window t) (sym (ok-injective g))
      ∙ set_dir-other frames d (bit_or a.0 3) v.window t low ne
]
  where
    with_frame : ℕ × Pmm → Outcome Vmm
    with_frame (p, pmm) =
        ok (record v { window = set_dir frames d (bit_or p 3) v.window; pmm = pmm })

ensure_next-other :
    (frames : Frames) (fuel d t : ℕ) (v : Vmm) {w : Vmm}
    → t < 1023 * 1024
    → t / 1024 ≢ d
    → ensure_next frames fuel d v ≡ ok w
    → w.window t ≡ v.window t
unfolding ensure_next
ensure_next-other frames fuel d t v {w} low ne h =
    elim (Bool-cases (present (v.window (dir_slot d)))) [
      | inl there ↦ ap (λ (u : Vmm). u.window t) (sym (ok-injective (rw there at h)))
      | inr missing ↦ map_page_directory_index-other frames fuel d t v low ne (rw missing at h)
    ]

-- The step after an entry: it writes no entry up to that one.
wrapped :
    (frames : Frames) (fuel toffset t : ℕ) (v : Vmm) {w : Vmm}
    → t ≤ toffset
    → toffset < 1023 * 1024
    → (if toffset % 1024 == 1023 then ensure_next frames fuel (toffset / 1024 + 1) v else ok v)
      ≡ ok w
    → w.window t ≡ v.window t
wrapped frames fuel toffset t v le low h = elim (Bool-cases (toffset % 1024 == 1023)) [
  | inl last ↦
      ensure_next-other frames fuel (toffset / 1024 + 1) t v (omega arith) apart (rw last at h)
  | inr inside ↦ ap (λ (u : Vmm). u.window t) (sym (ok-injective (rw inside at h)))
]
  where
    apart : t / 1024 ≢ toffset / 1024 + 1
    apart e = absurd (omega arith)

-- `v` with the entry at `toffset` set.
abbrev with_entry : ℕ → ℕ → ℕ → Vmm → Vmm
with_entry toffset phys flags v = record v {
  window = put_word v.window toffset (bit_or phys (bit_and flags 0x7f));
}

first_round :
    (frames : Frames) (fuel n toffset phys flags : ℕ) (v : Vmm) {w : Vmm}
    → map_entries frames fuel (suc n) toffset phys flags v ≡ ok w
    → (u : Vmm) × ((if toffset % 1024 == 1023
          then ensure_next frames fuel (toffset / 1024 + 1) (with_entry toffset phys flags v)
          else ok (with_entry toffset phys flags v))
        ≡ ok u)
      × (map_entries frames fuel n (toffset + 1) (add32 phys vmm_page_size) flags u ≡ ok w)
unfolding map_entries
first_round frames fuel n toffset phys flags v h =
    >>=-eq-ok
      (if toffset % 1024 == 1023
        then ensure_next frames fuel (toffset / 1024 + 1) (with_entry toffset phys flags v)
        else ok (with_entry toffset phys flags v))
      (map_entries frames fuel n (toffset + 1) (add32 phys vmm_page_size) flags) h

-- The entries below the run that is written.
map_entries-below :
    (frames : Frames) (fuel n toffset phys flags t : ℕ) (v : Vmm) {w : Vmm}
    → t < toffset
    → toffset + n ≤ 1023 * 1024
    → map_entries frames fuel n toffset phys flags v ≡ ok w
    → w.window t ≡ v.window t
unfolding map_entries
map_entries-below frames fuel zero toffset phys flags t v lt low h =
    ap (λ (u : Vmm). u.window t) (sym (ok-injective h))
map_entries-below frames fuel (suc n) toffset phys flags t v {w} lt low h =
    let x = with_entry toffset phys flags v in
    let (u, e, g) = first_round frames fuel n toffset phys flags v h in
    let kept : x.window t ≡ v.window t = ground arith in
    map_entries-below frames fuel n (toffset + 1) (add32 phys vmm_page_size) flags t u (omega arith)
      (omega arith) g
    ∙ wrapped frames fuel toffset t x (omega arith) (omega arith) e
    ∙ kept

map_entries-written :
    (frames : Frames) (fuel n toffset phys flags i : ℕ) (v : Vmm) {w : Vmm}
    → phys < 2 ^ 32
    → i < n
    → toffset + n ≤ 1023 * 1024
    → map_entries frames fuel n toffset phys flags v ≡ ok w
    → w.window (toffset + i) ≡ bit_or ((phys + i * 4096) % 2 ^ 32) (bit_and flags 0x7f)
unfolding map_entries
map_entries-written frames fuel zero toffset phys flags i v p lt low h = absurd (omega arith)
map_entries-written frames fuel (suc n) toffset phys flags zero v p lt low h =
    let x = with_entry toffset phys flags v in
    let (u, e, g) = first_round frames fuel n toffset phys flags v h in
    let here : toffset + 0 ≡ toffset = omega arith in
    let same : (phys + 0 * 4096) % 2 ^ 32 ≡ phys = omega arith in
    let put : x.window toffset ≡ bit_or phys (bit_and flags 0x7f) = ground arith in
    rw (here, same)
      (map_entries-below frames fuel n (toffset + 1) (add32 phys vmm_page_size) flags toffset u
          (omega arith) (omega arith) g
        ∙ wrapped frames fuel toffset toffset x (omega arith) (omega arith) e
        ∙ put)
map_entries-written frames fuel (suc n) toffset phys flags (suc i) v p lt low h =
    let (u, e, g) = first_round frames fuel n toffset phys flags v h in
    let here : toffset + suc i ≡ toffset + 1 + i = omega arith in
    let next : (phys + suc i * 4096) % 2 ^ 32 ≡ (add32 phys vmm_page_size + i * 4096) % 2 ^ 32 =
      omega arith in
    rw (here, next)
      (map_entries-written frames fuel n (toffset + 1) (add32 phys vmm_page_size) flags i u
        (omega arith) (omega arith) (omega arith) g)

-- For a run that ends below the page tables at 0xffc00000, a call of `MapPhysicalToVirtual` that
-- returns leaves in the entry of the page `i` of the run the physical address of its frame with
-- the low seven bits of the flags.
pub map_physical_to_virtual-entries :
    (frames : Frames) (fuel phys n virt flags i : ℕ) (v : Vmm) {w : Vmm}
    → phys < 2 ^ 32
    → i < n
    → virt / 4096 + n ≤ 1023 * 1024
    → map_physical_to_virtual frames fuel phys n virt flags v ≡ ok w
    → w.window (virt / 4096 + i) ≡ bit_or ((phys + i * 4096) % 2 ^ 32) (bit_and flags 0x7f)
unfolding map_physical_to_virtual
map_physical_to_virtual-entries frames fuel phys n virt flags i v p lt low h =
    let (u, e, g) =
      >>=-eq-ok (ensure_first frames fuel (virt / 2 ^ 22) v)
        (map_entries frames fuel n (virt / 2 ^ 22 * 1024 + virt / 2 ^ 12 % 1024) phys flags) h in
    let page : virt / 2 ^ 22 * 1024 + virt / 2 ^ 12 % 1024 ≡ virt / 4096 = omega arith in
    map_entries-written frames fuel n (virt / 4096) phys flags i u p lt low (rw page at g)
