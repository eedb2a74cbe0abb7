-- ===== src/Vmm.antt =====
-- src/arch/x86/VMM.cpp and src/include/arch/x86/VMM.hpp: the virtual memory manager. The
-- page directory maps itself, so the page tables are seen as one array of words at 0xffc00000,
-- whose last 1024 words are the directory: `window` is that array. When a directory entry is set,
-- the words of its table become those that the new frame holds.
pub mod Tables
pub mod Zones
pub mod Histories
pub mod NewTables
pub mod Unmapping
pub mod Init
mod Tests
use ann_os.Base.{
  ℕ, zero, suc, ◌+◌, ◌-◌, ◌*◌, ◌/◌, ◌%◌, ◌^◌, Bool, true, false, not, ◌&&◌, leb, ◌==◌,
  if◌then◌else◌, bit_and, bit_or, add32, sub32, mul32, Outcome, ok, panic, running, ◌>>=◌,
}
use ann_os.Pmm.{Pmm, normal}
use ann_os.Pmm.Mapping.{failed, map_pages}
use ann_os.Pmm.Allocation.{allocate_physical}

-- `enum VMMZone`
pub data VmmZone : Type 0 where
  user kernel app_loader : VmmZone

-- The bounds in `vzones`.
abbrev pub addr_end : VmmZone → ℕ
addr_end user = 0xbfffffff
addr_end kernel = 0xffffffff
addr_end app_loader = 0x480000

-- `enum VMMFlags`, whose members are the bits of a page table entry.
pub data VmmFlags : Type 0 where
  read_only read_write write_through non_cached no_execute : VmmFlags

abbrev pub flag_bits : VmmFlags → ℕ
flag_bits read_only = 0x1
flag_bits read_write = 0x3
flag_bits write_through = 0x8
flag_bits non_cached = 0x10
flag_bits no_execute = 0x80

abbrev pub vmm_page_size : ℕ
vmm_page_size = 4096

-- The contents of physical memory: word `i` of the frame at an address.
abbrev pub Frames : Type 0
Frames = ℕ → ℕ → ℕ

pub record Vmm : Type 0 where
  pub window : ℕ → ℕ
  pub last_user : ℕ
  pub last_kernel : ℕ
  pub last_app_loader : ℕ
  pub pmm : Pmm

-- `vzones[zone].last_vaddr`
abbrev pub last_vaddr : Vmm → VmmZone → ℕ
last_vaddr v user = v.last_user
last_vaddr v kernel = v.last_kernel
last_vaddr v app_loader = v.last_app_loader

abbrev pub set_last_vaddr : Vmm → VmmZone → ℕ → Vmm
set_last_vaddr v user a = record v { last_user = a }
set_last_vaddr v kernel a = record v { last_kernel = a }
set_last_vaddr v app_loader a = record v { last_app_loader = a }

-- The index of `pdir[dirindex]` in the window.
abbrev pub dir_slot : ℕ → ℕ
dir_slot dirindex = 1023 * 1024 + dirindex

-- The bit `present` of a directory or table entry.
abbrev pub present : ℕ → Bool
present entry = entry % 2 == 1

abbrev pub put_word : (ℕ → ℕ) → ℕ → ℕ → ℕ → ℕ
put_word window index value t = if t == index then value else window t

-- `pdir[dirindex].addr = entry`
unfoldable pub set_dir : Frames → ℕ → ℕ → (ℕ → ℕ) → ℕ → ℕ
set_dir frames dirindex entry window t =
    if t == dir_slot dirindex
    then entry
    else if t / 1024 == dirindex
    then frames (entry - entry % 4096) (t % 1024)
    else window t

-- `memset` of the table of the directory entry.
unfoldable pub clear_table : ℕ → (ℕ → ℕ) → ℕ → ℕ
clear_table dirindex window t = if t / 1024 == dirindex then 0 else window t

module _ (frames : Frames) (fuel : ℕ) where
  -- `MapPageDirectoryIndex`, and the write of the entry that it is called for.
  unfoldable pub map_page_directory_index : ℕ → Vmm → Outcome Vmm
  map_page_directory_index dirindex v =
      if leb 1024 dirindex
      then panic "vmm: tried to allocate directory entry with dirindex > 1024"
      else do
        (p, pmm) ← allocate_physical fuel v.pmm 1 normal
        ok (record v { window = set_dir frames dirindex (bit_or p 3) v.window; pmm = pmm })

  -- The first test of `MapPhysicalToVirtual`: a missing table is allocated and cleared.
  unfoldable pub ensure_first : ℕ → Vmm → Outcome Vmm
  ensure_first dirindex v = if present (v.window (dir_slot dirindex)) then ok v else do
    w ← map_page_directory_index dirindex v
    ok (record w { window = clear_table dirindex w.window })

  -- The test at a directory wrap: a missing table is allocated, and not cleared.
  unfoldable pub ensure_next : ℕ → Vmm → Outcome Vmm
  ensure_next dirindex v =
      if present (v.window (dir_slot dirindex)) then ok v else map_page_directory_index dirindex v

  -- The loop of `MapPhysicalToVirtual` at table entry `toffset`: `tableindex` and `dirindex` are
  -- its remainder and quotient by 1024, as they are before the loop.
  unfoldable pub map_entries : ℕ → ℕ → ℕ → ℕ → Vmm → Outcome Vmm
  map_entries zero toffset phys flags v = ok v
  map_entries (suc rounds) toffset phys flags v = do
    let w = record v { window = put_word v.window toffset (bit_or phys (bit_and flags 0x7f)) }
    u ← if toffset % 1024 == 1023 then ensure_next (toffset / 1024 + 1) w else ok w
    map_entries rounds (toffset + 1) (add32 phys vmm_page_size) flags u

  unfoldable pub map_physical_to_virtual : ℕ → ℕ → ℕ → ℕ → Vmm → Outcome Vmm
  map_physical_to_virtual phys n virt flags v = do
    w ← ensure_first (virt / 2 ^ 22) v
    map_entries n (virt / 2 ^ 22 * 1024 + virt / 2 ^ 12 % 1024) phys flags w

  -- The virtual address, the physical address given through `rphys`, and the manager.
  unfoldable pub allocate_virtual_physical : ℕ → ℕ → ℕ → VmmZone → Vmm → Outcome (ℕ × ℕ × Vmm)
  allocate_virtual_physical pzone n flags vzone v =
      let last = last_vaddr v vzone in
      if leb (addr_end vzone) (sub32 (add32 last (mul32 vmm_page_size n)) 1)
      then panic "vmm: virtual address space exhausted "
      else do
        (physaddr, pmm) ← allocate_physical fuel v.pmm n pzone
        w ←
            if physaddr == failed
            then panic "vmm: physical mapping not successful"
            else map_physical_to_virtual physaddr n last flags (record v { pmm = pmm })
        ok (last, physaddr, set_last_vaddr w vzone (add32 last (mul32 vmm_page_size n)))

  unfoldable pub allocate_virtual : ℕ → ℕ → VmmZone → Vmm → Outcome (ℕ × Vmm)
  allocate_virtual n flags zone v = do
    (virt, _, w) ← allocate_virtual_physical normal n flags zone v
    ok (virt, w)

  unfoldable pub map_physical_address : ℕ → ℕ → ℕ → VmmZone → Vmm → Outcome (ℕ × Vmm)
  map_physical_address phys n flags vzone v =
      let last = last_vaddr v vzone in
      let off = phys % 4096 in
      if leb (addr_end vzone) (sub32 (add32 last (mul32 vmm_page_size n)) 1)
      then panic "vmm: virtual address space exhausted"
      else let (physaddr, pmm) = map_pages v.pmm (phys - off) n in
        if physaddr == failed then panic "vmm: physical mapping not successful" else do
          w ← map_physical_to_virtual physaddr n last flags (record v { pmm = pmm })
          ok (add32 last off, set_last_vaddr w vzone (add32 last (mul32 vmm_page_size n)))

-- The loop of `UnmapVirtual`. An entry of a table that is not there cannot be written: the
-- processor raises a page fault, whose handler halts the machine.
unfoldable pub unmap_loop : ℕ → ℕ → Vmm → Outcome Vmm
unmap_loop zero toffset v = ok v
unmap_loop (suc rounds) toffset v =
    let entry = v.window toffset in
    let rest =
      unmap_loop rounds (toffset + 1)
        (record v { window = put_word v.window toffset (entry - entry % 2) }) in
    if present (v.window (dir_slot (toffset / 1024))) then rest else panic "page fault"

unfoldable pub unmap_virtual : ℕ → ℕ → Vmm → Outcome Vmm
unmap_virtual virt n v = unmap_loop n (virt / 2 ^ 22 * 1024 + virt / 2 ^ 12 % 1024) v
