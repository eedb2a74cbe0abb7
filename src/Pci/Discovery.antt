-- ===== src/Pci/Discovery.antt =====
-- Which functions of the bus `Initialize` of src/PCIBus.cpp finds, and where it stores them.
use ann_os.Base.{
  ℕ, zero, suc, ◌+◌, ◌&&◌, ltb, ◌==◌, if◌then◌else◌, List, [], ◌∷◌, ◌++◌, Option, none, some,
}
use ann_os.Pci.{PciDev, PciBus, decode, add_device}
use ann_os.Pci.Query.{present_words}

-- A function of the bus: its bus, device and function numbers and its words.
abbrev pub Function : Type 0
Function = ℕ × ℕ × ℕ × List ℕ

-- The functions of a device from `fun` on; a device without the multi-function bit in function 0
-- has no other.
abbrev pub device_functions : (ℕ → Option (List ℕ)) → ℕ → ℕ → ℕ → ℕ → List Function
device_functions present bus dev zero fun = []
device_functions present bus dev (suc rounds) fun =
    let rest = device_functions present bus dev rounds (fun + 1) in
    elim (present fun) [
      | none ↦ rest
      | some words ↦
          if (fun == 0) && ltb (decode words).header_type 0x80
          then (bus, dev, fun, words) ∷ []
          else (bus, dev, fun, words) ∷ rest
    ]

abbrev pub bus_functions : (ℕ → ℕ) → ℕ → ℕ → ℕ → List Function
bus_functions space bus zero dev = []
bus_functions space bus (suc rounds) dev =
    device_functions (present_words space bus dev) bus dev 8 0
    ++ bus_functions space bus rounds (dev + 1)

abbrev pub all_functions : (ℕ → ℕ) → ℕ → ℕ → List Function
all_functions space zero bus = []
all_functions space (suc rounds) bus =
    bus_functions space bus 32 0 ++ all_functions space rounds (bus + 1)

-- The functions stored one after the other.
abbrev add_all : List Function → PciBus → PciBus
add_all [] b = b
add_all ((bus, dev, fun, words) ∷ fs) b = add_all fs (add_device bus dev fun words b)

-- What `Initialize` keeps of a function, over the driver's object that the entry had.
abbrev pub entry_of : Function → ℕ → PciDev
entry_of (bus, dev, fun, words) devobj = record {
  bus = bus;
  dev = dev;
  func = fun;
  devobj = devobj;
  reginfo = decode words;
}
