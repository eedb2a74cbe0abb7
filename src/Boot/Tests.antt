-- ===== src/Boot/Tests.antt =====
-- The memory map at a concrete input: six entries, of which the kernel reads seven.
use ann_os.Base.{
  ℕ, ◌<◌, ◌==◌, ◌≡◌, refl, if◌then◌else◌, some, List, length, get_elem?, arith, Memory,
}
use ann_os.Pmm.{MemoryMap}
use ann_os.Boot.{MultibootBif, map_entry, memory_map}
use ann_os.Boot.Entries.{memory_map-entries}

abbrev six : MultibootBif
six = record {
  flags = 0;
  mem_lower = 640;
  mem_upper = 0;
  boot_device = 0;
  cmdline = 0;
  mods_count = 0;
  mods_addr = 0;
  mmap_length = 144;
  mmap_addr = 0x1000;
}

abbrev sizes : Memory
sizes a = if a == 0x1000 then 20 else 0

memory_map-entries_example :
    (areas : List MemoryMap) × (memory_map sizes six ≡ some areas)
    × (length areas ≡ 7)
    × ((i : ℕ) → i < length areas → get_elem? areas i ≡ some (map_entry sizes 0x1000 i))
memory_map-entries_example = memory_map-entries sizes six 6 (omega arith) (omega arith) refl refl
