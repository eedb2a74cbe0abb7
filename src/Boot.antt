-- ===== src/Boot.antt =====
-- src/main.cpp: what the kernel reads of the boot loader's structures, and the physical memory
-- manager that it makes of the memory map. The structures lie below the end of the address space,
-- so addresses do not wrap around here.
pub mod Entries
mod Tests
use ann_os.Base.{
  ℕ, zero, suc, ◌+◌, ◌*◌, ◌/◌, ◌%◌, ◌^◌, Bool, not, ◌==◌, if◌then◌else◌, Option, none, some, List,
  [], ◌∷◌, add32, sub32, Memory, load32, load64, Outcome, ok, panic, ◌>>=◌,
}
use ann_os.Pmm.{MemoryMap, Pmm}
use ann_os.Pmm.Init.{new_pmm}

pub record BootStruct : Type 0 where
  pub magic : ℕ
  pub multiboot_phys_ptr : ℕ
  pub phys_kernel_start : ℕ
  pub phys_kernel_end : ℕ
  pub phys_virt_offset : ℕ
  pub phys_cr3_addr : ℕ

abbrev pub boot_struct : Memory → ℕ → BootStruct
boot_struct m a = record {
  magic = load32 m a;
  multiboot_phys_ptr = load32 m (a + 4);
  phys_kernel_start = load32 m (a + 8);
  phys_kernel_end = load32 m (a + 12);
  phys_virt_offset = load32 m (a + 16);
  phys_cr3_addr = load32 m (a + 20);
}

-- `MultibootBIF`, without the symbols of the executable.
pub record MultibootBif : Type 0 where
  pub flags : ℕ
  pub mem_lower : ℕ
  pub mem_upper : ℕ
  pub boot_device : ℕ
  pub cmdline : ℕ
  pub mods_count : ℕ
  pub mods_addr : ℕ
  pub mmap_length : ℕ
  pub mmap_addr : ℕ

abbrev pub multiboot_bif : Memory → ℕ → MultibootBif
multiboot_bif m a = record {
  flags = load32 m a;
  mem_lower = load32 m (a + 4);
  mem_upper = load32 m (a + 8);
  boot_device = load32 m (a + 12);
  cmdline = load32 m (a + 16);
  mods_count = load32 m (a + 20);
  mods_addr = load32 m (a + 24);
  mmap_length = load32 m (a + 44);
  mmap_addr = load32 m (a + 48);
}

-- `MultibootMmap`: a size, and behind it entries of 24 bytes. The casts keep the low 32 bits.
abbrev pub map_entry : Memory → ℕ → ℕ → MemoryMap
map_entry m mb_mmap i =
    let entry = mb_mmap + 4 + 24 * i in
    record {
      start = load64 m entry % 2 ^ 32;
      len = load64 m (entry + 8) % 2 ^ 32;
      type = load32 m (entry + 16);
    }

-- `entcount`. A size of 0 makes the division fault. It is an `int`, negative from 2 ^ 31 on, which
-- takes a size of 1.
abbrev pub entry_count : ℕ → ℕ → Option ℕ
entry_count mmap_length size = if size == 0 then none else some (sub32 mmap_length 4 / size)

-- The loop that fills `mmap`, from entry `i` on.
unfoldable pub convert_entries : Memory → ℕ → ℕ → ℕ → List MemoryMap
convert_entries m mb_mmap zero i = []
convert_entries m mb_mmap (suc rounds) i =
    map_entry m mb_mmap i ∷ convert_entries m mb_mmap rounds (i + 1)

unfoldable pub memory_map : Memory → MultibootBif → Option (List MemoryMap)
memory_map m bif = elim (entry_count bif.mmap_length (load32 m bif.mmap_addr)) [
  | none ↦ none
  | some n ↦ some (convert_entries m bif.mmap_addr n 0)
]

abbrev pub has_magic : BootStruct → Bool
has_magic b = b.magic == 0x2badb002

-- The test of the magic number in `kernel_main`, and the construction of its physical memory
-- manager.
unfoldable pub boot_pmm : Memory → ℕ → Outcome Pmm
boot_pmm m bs =
    let b = boot_struct m bs in
    if not (has_magic b)
    then panic "invalid boot magic number"
    else elim (memory_map m (multiboot_bif m b.multiboot_phys_ptr)) [
      | none ↦ panic "division by zero"
      | some areas ↦
          new_pmm m b.phys_kernel_start b.phys_virt_offset
            (add32 b.phys_kernel_end b.phys_virt_offset) areas
    ]
