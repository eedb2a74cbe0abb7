-- ===== src/Vmm/Zones.antt =====
-- The virtual addresses that the allocator of src/arch/x86/VMM.cpp hands out.
use ann_os.Base.{
  ℕ, ◌+◌, ◌*◌, ◌^◌, ◌≤◌, ◌<◌, ◌≡◌, refl, ap, sym, ◌∙◌, false, Bool-cases, inl, inr, leb, ◌==◌,
  if◌then◌else◌, add32, sub32, mul32, Outcome, ok, panic, ◌>>=◌, >>=-eq-ok, ok-injective, arith,
}
use ann_os.Pmm.{Pmm, normal}
use ann_os.Pmm.Mapping.{failed}
use ann_os.Pmm.Allocation.{allocate_physical}
use ann_os.Vmm.{
  Vmm, VmmZone, user, kernel, app_loader, Frames, vmm_page_size, addr_end, last_vaddr,
  set_last_vaddr, map_physical_to_virtual, allocate_virtual_physical, allocate_virtual,
}

last_vaddr-set_last_vaddr :
    (v : Vmm) (zone : VmmZone) (a : ℕ) → last_vaddr (set_last_vaddr v zone a) zone ≡ a
last_vaddr-set_last_vaddr v user a = refl
last_vaddr-set_last_vaddr v kernel a = refl
last_vaddr-set_last_vaddr v app_loader a = refl

-- What a call that returns says of the three results.
pub record Allocated (v : Vmm) (n : ℕ) (zone : VmmZone) (a : ℕ) (w : Vmm) : Type 0 where
  pub room :
      leb (addr_end zone) (sub32 (add32 (last_vaddr v zone) (mul32 vmm_page_size n)) 1) ≡ false
  pub address : a ≡ last_vaddr v zone
  pub next : last_vaddr w zone ≡ add32 (last_vaddr v zone) (mul32 vmm_page_size n)

module _ (frames : Frames) (fuel : ℕ) where
  pub allocate_virtual_physical-Allocated :
      (pzone n flags : ℕ) (zone : VmmZone) (v : Vmm) {a phys : ℕ} {w : Vmm}
      → allocate_virtual_physical frames fuel pzone n flags zone v ≡ ok (a, phys, w)
      → Allocated v n zone a w
  unfolding allocate_virtual_physical
  allocate_virtual_physical-Allocated pzone n flags zone v {a} {phys} {w} h =
      elim (Bool-cases
        (leb (addr_end zone) (sub32 (add32 (last_vaddr v zone) (mul32 vmm_page_size n)) 1))) [
          | inl full ↦ absurd (let g = rw full at h in cc)
          | inr room ↦
              let (f, e, g) =
                >>=-eq-ok (allocate_physical fuel v.pmm n pzone) framed (rw room at h) in
              let (x, e', g') = >>=-eq-ok (mapped f) (finished f) g in
              let r = ok-injective g' in
              record {
                room = room;
                address = ap (λ (q : ℕ × ℕ × Vmm). q.0) (sym r);
                next =
                    ap (λ (q : ℕ × ℕ × Vmm). last_vaddr q.2 zone) (sym r)
                    ∙ last_vaddr-set_last_vaddr x zone _;
              }
        ]
    where
      mapped : ℕ × Pmm → Outcome Vmm
      mapped (physaddr, pmm) =
          if physaddr == failed
          then panic "vmm: physical mapping not successful"
          else map_physical_to_virtual frames fuel physaddr n (last_vaddr v zone) flags
              (record v { pmm = pmm })

      finished : ℕ × Pmm → Vmm → Outcome (ℕ × ℕ × Vmm)
      finished (physaddr, pmm) x = ok (
        last_vaddr v zone,
        physaddr,
        set_last_vaddr x zone (add32 (last_vaddr v zone) (mul32 vmm_page_size n)),
      )

      framed : ℕ × Pmm → Outcome (ℕ × ℕ × Vmm)
      framed f = mapped f >>= finished f

  allocate_virtual-Allocated :
      (n flags : ℕ) (zone : VmmZone) (v : Vmm) {a : ℕ} {w : Vmm}
      → allocate_virtual frames fuel n flags zone v ≡ ok (a, w)
      → Allocated v n zone a w
  unfolding allocate_virtual
  allocate_virtual-Allocated n flags zone v h =
      let ((b, phys, x), e, g) =
        >>=-eq-ok (allocate_virtual_physical frames fuel normal n flags zone v)
          (λ (b, phys, x). ok (b, x)) h in
      let r = ok-injective g in
      let k = allocate_virtual_physical-Allocated normal n flags zone v e in
      record {
        room = k.room;
        address = ap (λ (q : ℕ × Vmm). q.0) (sym r) ∙ k.address;
        next = ap (λ (q : ℕ × Vmm). last_vaddr q.1 zone) (sym r) ∙ k.next;
      }

  -- Two successive allocations out of one zone that return, the first of at least a page and
  -- without wrapping around, give two runs of pages one behind the other, the first inside the
  -- zone.
  allocate_virtual_twice :
      (n m flags flags' : ℕ) (zone : VmmZone) (v : Vmm) {a b : ℕ} {w w' : Vmm}
      → 0 < n
      → last_vaddr v zone + vmm_page_size * n < 2 ^ 32
      → allocate_virtual frames fuel n flags zone v ≡ ok (a, w)
      → allocate_virtual frames fuel m flags' zone w ≡ ok (b, w')
      → (a ≡ last_vaddr v zone) × (b ≡ a + vmm_page_size * n) × (b ≤ addr_end zone)
  allocate_virtual_twice n m flags flags' zone v {a} {b} {w} {w'} pos fits h h' =
      let first = allocate_virtual-Allocated n flags zone v h in
      let second = allocate_virtual-Allocated m flags' zone w h' in
      let next : b ≡ last_vaddr v zone + vmm_page_size * n =
        second.address ∙ first.next ∙ omega arith in
      let room = first.room in
      (first.address, next ∙ ap (λ x. x + vmm_page_size * n) (sym first.address), ground arith)
