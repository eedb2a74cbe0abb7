-- ===== src/Pci.antt =====
-- src/PCIBus.cpp, src/include/PCIBus.hpp and src/PCIDevice.cpp: the PCI bus driver. The write of a
-- register is left out, as it only panics, and so is the listing of the devices in the log.
pub mod Query
pub mod Search
pub mod Discovery
mod Tests
use ann_os.Base.{
  ℕ, zero, suc, ◌+◌, ◌-◌, ◌*◌, ◌/◌, ◌%◌, ◌^◌, Bool, true, false, ◌&&◌, ltb, ◌==◌, if◌then◌else◌,
  Option, none, some, List, [], ◌∷◌, get_elem?,
}
use ann_os.Io.{History, Hardware, out32, in32}

abbrev pub config_address : ℕ
config_address = 0xcf8

abbrev pub config_data : ℕ
config_data = 0xcfc

-- `MakePCIAddrQuery`, as the word `data` of the union: the fields are cut to their widths.
unfoldable pub make_pci_addr_query : ℕ → ℕ → ℕ → ℕ → ℕ
make_pci_addr_query bus dev fun reg =
    2 ^ 31 + bus % 256 * 2 ^ 16 + dev % 32 * 2 ^ 11 + fun % 8 * 2 ^ 8 + reg % 64 * 4

-- `struct PCIRegister`; `header` is the union, as the twelve words from offset 16 on.
pub record PciRegister : Type 0 where
  pub vendor : ℕ
  pub device : ℕ
  pub command : ℕ
  pub status : ℕ
  pub rev : ℕ
  pub prog_id : ℕ
  pub subclass : ℕ
  pub classcode : ℕ
  pub cache_line_size : ℕ
  pub latency_timer : ℕ
  pub header_type : ℕ
  pub bist : ℕ
  pub header : ℕ → ℕ

-- `devobj` is the address of the driver's object, 0 for none.
pub record PciDev : Type 0 where
  pub bus : ℕ
  pub dev : ℕ
  pub func : ℕ
  pub devobj : ℕ
  pub reginfo : PciRegister

-- `MAX_PCI_DEVS`
abbrev pub max_pci_devs : ℕ
max_pci_devs = 32

-- The array has `max_pci_devs` entries. An index from 32 on is that of the memory behind it, where
-- `pcidev_count` and other objects lie: what is written there is not tracked.
pub record PciBus : Type 0 where
  pub pcidevs : ℕ → PciDev
  pub pcidev_count : ℕ

abbrev pub word : List ℕ → ℕ → ℕ
word words i = elim (get_elem? words i) [ none ↦ 0 | some w ↦ w ]

-- The `memcpy` of the words read into the structure.
unfoldable pub decode : List ℕ → PciRegister
decode words = record {
  vendor = word words 0 % 2 ^ 16;
  device = word words 0 / 2 ^ 16;
  command = word words 1 % 2 ^ 16;
  status = word words 1 / 2 ^ 16;
  rev = word words 2 % 256;
  prog_id = word words 2 / 256 % 256;
  subclass = word words 2 / 2 ^ 16 % 256;
  classcode = word words 2 / 2 ^ 24;
  cache_line_size = word words 3 % 256;
  latency_timer = word words 3 / 256 % 256;
  header_type = word words 3 / 2 ^ 16 % 256;
  bist = word words 3 / 2 ^ 24;
  header = λ i. word words (4 + i);
}

-- A query is written to one port and answered at the other.
unfoldable pub ask : Hardware → ℕ → History → ℕ × History
ask hw query h = in32 hw config_data (out32 config_address query h)

-- `ReadPCIRegister` for 8, 16 or 32 bits.
unfoldable pub read_pci_register : Hardware → ℕ → PciDev → ℕ → History → ℕ × History
read_pci_register hw size d idx h =
    let (content, h') = ask hw (make_pci_addr_query d.bus d.dev d.func ((idx - idx % 4) / 4)) h in
    (content / 2 ^ (idx % 4 * 8) % 2 ^ size, h')

-- The first index from `i` on, in `rounds` rounds, whose device passes the test.
unfoldable pub find_from : (PciDev → Bool) → (ℕ → PciDev) → ℕ → ℕ → Option ℕ
find_from test devs i zero = none
find_from test devs i (suc rounds) =
    let rest = find_from test devs (i + 1) rounds in if test (devs i) then some i else rest

unfoldable pub find_pci_by_vendor : PciBus → ℕ → ℕ → Option ℕ
find_pci_by_vendor b vendor device =
    find_from (λ d. (d.reginfo.vendor == vendor) && (d.reginfo.device == device)) b.pcidevs 0
      b.pcidev_count

-- The index of the device; `list_count` is 1 with it and 0 without.
unfoldable pub find_pci_by_class : PciBus → ℕ → ℕ → Option ℕ
find_pci_by_class b classcode subclass =
    find_from (λ d. (d.reginfo.classcode == classcode) && (d.reginfo.subclass == subclass))
      b.pcidevs 0 b.pcidev_count

-- `DetectPCIByClass`: the index that `pci` is set to, when it returns true.
unfoldable pub detect_pci_by_class : PciBus → ℕ → ℕ → Option ℕ
detect_pci_by_class b classcode subclass = elim (find_pci_by_class b classcode subclass) [
  | none ↦ none
  | some i ↦ if (b.pcidevs i).devobj == 0 then some i else none
]

-- A device found is stored at index `pidx`, which is not compared with the size of the array. From
-- 32 on the write changes no entry, and `pcidev_count` under entry 32 is written anew at the end.
unfoldable pub add_device : ℕ → ℕ → ℕ → List ℕ → PciBus → PciBus
add_device bus dev fun words b = record {
  pcidevs = λ i.
      if (i == b.pcidev_count) && ltb i max_pci_devs
      then (record {
        bus = bus;
        dev = dev;
        func = fun;
        devobj = (b.pcidevs i).devobj;
        reginfo = decode words;
      })
      else b.pcidevs i;
  pcidev_count = b.pcidev_count + 1;
}

-- The bus after the answer of a function, and whether the loop over the functions ends there.
unfoldable pub take_answer : ℕ → ℕ → ℕ → Option (List ℕ) → PciBus → PciBus × Bool
take_answer bus dev fun none b = (b, false)
take_answer bus dev fun (some words) b =
    (add_device bus dev fun words b, (fun == 0) && ltb (decode words).header_type 0x80)

module _ (hw : Hardware) (bus dev : ℕ) where
  -- The rounds of the query loop from register `reg` on.
  unfoldable pub query_loop : ℕ → ℕ → ℕ → History → List ℕ × History
  query_loop fun zero reg h = ([], h)
  query_loop fun (suc rounds) reg h =
      let (w, h') = ask hw (make_pci_addr_query bus dev fun reg) h in
      let (words, h'') = query_loop fun rounds (reg + 1) h' in (w ∷ words, h'')

  -- The words of a function: `sizeof(PCIDev) / 4` is 18. The first one says whether it exists.
  unfoldable pub probe : ℕ → History → Option (List ℕ) × History
  probe fun h =
      let (w, h') = ask hw (make_pci_addr_query bus dev fun 0) h in
      let (words, h'') = query_loop fun 17 1 h' in
      if w == 0xffffffff then (none, h') else (some (w ∷ words), h'')

  -- The loop over the functions, from `fun` on.
  unfoldable pub scan_functions : ℕ → ℕ → PciBus × History → PciBus × History
  scan_functions zero fun s = s
  scan_functions (suc rounds) fun (b, h) =
      let (answer, h') = probe fun h in
      let (b', last) = take_answer bus dev fun answer b in
      let rest = scan_functions rounds (fun + 1) (b', h') in if last then (b', h') else rest

unfoldable pub scan_devices : Hardware → ℕ → ℕ → ℕ → PciBus × History → PciBus × History
scan_devices hw bus zero dev s = s
scan_devices hw bus (suc rounds) dev s =
    scan_devices hw bus rounds (dev + 1) (scan_functions hw bus dev 8 0 s)

unfoldable pub scan_buses : Hardware → ℕ → ℕ → PciBus × History → PciBus × History
scan_buses hw zero bus s = s
scan_buses hw (suc rounds) bus s = scan_buses hw rounds (bus + 1) (scan_devices hw bus 32 0 s)

-- `PCIBus::Initialize`: `pidx` starts at 0, and is stored in `pcidev_count` at the end.
unfoldable pub initialize : Hardware → PciBus → History → PciBus × History
initialize hw b h = scan_buses hw 255 0 (record b { pcidev_count = 0 }, h)
