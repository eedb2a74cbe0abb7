-- ===== src/Pci/Tests.antt =====
-- The theorems on the PCI bus at concrete inputs: one host bridge, 8086:1237, on the bus.
use ann_os.Base.{ℕ, ◌+◌, ◌^◌, ◌≡◌, ◌↔◌, ◌&&◌, ltb, ◌==◌, if◌then◌else◌, [], ◌∷◌, some}
use ann_os.Io.{Hardware, wrote8, wrote32, read8, read32}
use ann_os.Pci.{PciDev, PciBus, decode, detect_pci_by_class}
use ann_os.Pci.Search.{FirstAt, detect_pci_by_class-first_iff}

abbrev host_bridge : ℕ → ℕ
host_bridge query =
    if query == 2 ^ 31
    then 0x12378086
    else if query == 2 ^ 31 + 8
    then 0x06000002
    else if ltb query (2 ^ 31 + 256)
    then 0
    else 0xffffffff

abbrev steady : Hardware
steady (wrote32 port query ∷ h) p = host_bridge query
steady (wrote8 port val ∷ h) p = 0
steady (read8 port ∷ h) p = 0
steady (read32 port ∷ h) p = 0
steady [] p = 0

abbrev slot : PciDev
slot = record {
  bus = 0;
  dev = 0;
  func = 0;
  devobj = 0;
  reginfo = decode (0x12378086 ∷ 0 ∷ 0x06000002 ∷ []);
}

-- Two devices of one kind.
abbrev pair : PciBus
pair = record { pcidevs = λ i. slot; pcidev_count = 2 }

detect_pci_by_class-first_iff_example : (detect_pci_by_class pair 6 0 ≡ some 0) ↔ (
    FirstAt (λ d. (d.reginfo.classcode == 6) && (d.reginfo.subclass == 0)) pair 0
    × ((pair.pcidevs 0).devobj ≡ 0))
detect_pci_by_class-first_iff_example = detect_pci_by_class-first_iff pair 6 0 0
