-- ===== src/Pci/Search.antt =====
-- Which device the searches of src/PCIBus.cpp return.
use ann_os.Base.{
  ℕ, zero, suc, ◌+◌, ◌≤◌, ◌<◌, ◌≡◌, refl, ap, ◌∙◌, sym, dec_lt, Bool, true, false, Bool-cases, ◌&&◌,
  ◌==◌, none, some, Option-cases, ◌↔◌, inl, inr, arith, ℕ_discrete,
}
use ann_os.Pci.{
  PciDev, PciBus, find_from, find_pci_by_vendor, find_pci_by_class, detect_pci_by_class,
}

module _ (test : PciDev → Bool) (devs : ℕ → PciDev) where
  find_from-some :
      (i rounds : ℕ) {j : ℕ}
      → find_from test devs i rounds ≡ some j
      → (i ≤ j)
        × (j < i + rounds)
        × (test (devs j) ≡ true)
        × ((k : ℕ) → i ≤ k → k < j → test (devs k) ≡ false)
  unfolding find_from
  find_from-some i zero h = absurd (cc)
  find_from-some i (suc rounds) {j} h = elim (Bool-cases (test (devs i))) [
    | inl passed ↦
        let e : i ≡ j = some-injective (rw passed at h) in
        (omega arith, omega arith, rw e at passed, λ k l m. absurd (omega arith))
    | inr failed ↦
        let (low, high, passes, before) = find_from-some (i + 1) rounds (rw failed at h) in
        (
          omega arith,
          omega arith,
          passes,
          λ k l m. elim (ℕ_discrete i k) [
            | yes e ↦ rw e at failed
            | no ne ↦ before k (omega arith) m
          ],
        )
  ]
    where
      some-injective : {a b : ℕ} → some a ≡ some b → a ≡ b
      some-injective e = cc

  find_from-none :
      (i rounds : ℕ)
      → find_from test devs i rounds ≡ none
      → (k : ℕ) → i ≤ k
      → k < i + rounds
      → test (devs k) ≡ false
  unfolding find_from
  find_from-none i zero h k low high = absurd (omega arith)
  find_from-none i (suc rounds) h k low high = elim (Bool-cases (test (devs i))) [
    | inl passed ↦ absurd (let g = rw passed at h in cc)
    | inr failed ↦ elim (ℕ_discrete i k) [
      | yes e ↦ rw e at failed
      | no ne ↦ find_from-none (i + 1) rounds (rw failed at h) k (omega arith) (omega arith)
    ]
  ]

abbrev pub FirstAt : (PciDev → Bool) → PciBus → ℕ → Type 0
FirstAt test b i =
    (i < b.pcidev_count)
    × (test (b.pcidevs i) ≡ true)
    × ((k : ℕ) → k < i → test (b.pcidevs k) ≡ false)

find_from-first_iff :
    (test : PciDev → Bool) (b : PciBus) (i : ℕ)
    → (find_from test b.pcidevs 0 b.pcidev_count ≡ some i) ↔ FirstAt test b i
find_from-first_iff test b i = (sound, complete)
  where
    sound : find_from test b.pcidevs 0 b.pcidev_count ≡ some i → FirstAt test b i
    sound h =
        let (low, high, passes, before) = find_from-some test b.pcidevs 0 b.pcidev_count h in
        (omega arith, passes, λ k l. before k (omega arith) l)

    complete : FirstAt test b i → find_from test b.pcidevs 0 b.pcidev_count ≡ some i
    complete (inside, passes, before) =
        elim (Option-cases (find_from test b.pcidevs 0 b.pcidev_count)) [
          | inl none_found ↦
              let no =
                find_from-none test b.pcidevs 0 b.pcidev_count none_found i (omega arith)
                  (omega arith) in
              absurd (cc)
          | inr (j, e) ↦
              let (inside', passes', before') = sound_at j e in
              elim (dec_lt i j) [
                | yes l ↦ let no = before' i l in absurd (cc)
                | no l ↦ elim (dec_lt j i) [
                  | yes m ↦ let no = before j m in absurd (cc)
                  | no m ↦ let same : j ≡ i = omega arith in e ∙ ap some same
                ]
              ]
        ]
      where
        sound_at : (j : ℕ) → find_from test b.pcidevs 0 b.pcidev_count ≡ some j → FirstAt test b j
        sound_at j e =
            let (low, high, p, q) = find_from-some test b.pcidevs 0 b.pcidev_count e in
            (omega arith, p, λ k l. q k (omega arith) l)

-- `FindPCIByVendor` returns the device at an index exactly when that is the first one among the
-- devices discovered with the vendor and the device number asked for.
find_pci_by_vendor-first_iff :
    (b : PciBus) (vendor device i : ℕ)
    → (find_pci_by_vendor b vendor device ≡ some i)
      ↔ FirstAt (λ d. (d.reginfo.vendor == vendor) && (d.reginfo.device == device)) b i
unfolding find_pci_by_vendor
find_pci_by_vendor-first_iff b vendor device i = find_from-first_iff _ b i

find_pci_by_class-first_iff :
    (b : PciBus) (classcode subclass i : ℕ)
    → (find_pci_by_class b classcode subclass ≡ some i)
      ↔ FirstAt (λ d. (d.reginfo.classcode == classcode) && (d.reginfo.subclass == subclass)) b i
unfolding find_pci_by_class
find_pci_by_class-first_iff b classcode subclass i = find_from-first_iff _ b i

taken :
    (b : PciBus) (classcode subclass i : ℕ)
    → detect_pci_by_class b classcode subclass ≡ some i
    → (find_pci_by_class b classcode subclass ≡ some i) × ((b.pcidevs i).devobj ≡ 0)
unfolding detect_pci_by_class
taken b classcode subclass i h = elim (Option-cases (find_pci_by_class b classcode subclass)) [
  | inl none_found ↦ absurd (let g = rw (none_found, detect_pci_by_class) at h in cc)
  | inr (j, e) ↦ elim (ℕ_discrete (b.pcidevs j).devobj 0) [
    | yes free ↦
        let same : j ≡ i = let g = rw (e, free, detect_pci_by_class) at h in cc in
        (e ∙ ap some same, ap (λ k. (b.pcidevs k).devobj) (sym same) ∙ free)
    | no busy ↦ absurd (let g = rw (e, detect_pci_by_class) at h in ground arith)
  ]
]

-- `DetectPCIByClass` takes the device at an index exactly when that is the first one among the
-- devices discovered with the class and the subclass asked for, and it has no driver yet.
pub detect_pci_by_class-first_iff :
    (b : PciBus) (classcode subclass i : ℕ)
    → (detect_pci_by_class b classcode subclass ≡ some i) ↔ (
        FirstAt (λ d. (d.reginfo.classcode == classcode) && (d.reginfo.subclass == subclass)) b i
        × ((b.pcidevs i).devobj ≡ 0))
unfolding detect_pci_by_class
detect_pci_by_class-first_iff b classcode subclass i =
    let first = find_pci_by_class-first_iff b classcode subclass i in
    (
      (λ h. let (e, free) = taken b classcode subclass i h in (first.0 e, free)),
      (λ (at, free). rw (first.1 at, free, detect_pci_by_class) refl),
    )
