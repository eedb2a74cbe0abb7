-- ===== src/Smbios.antt =====
-- src/arch/x86/SMBIOS.cpp and src/include/arch/x86/SMBIOS.hpp: the SMBIOS tables of the firmware.
-- The tables lie below the end of the address space, so addresses do not wrap around here.
pub mod Tables
pub mod Walk
pub mod Detection
pub mod Returning
pub mod Lookup
pub mod Advance
mod Tests
use ann_os.Base.{
  ℕ, zero, suc, ◌+◌, ◌-◌, ◌%◌, Bool, true, false, not, ◌&&◌, ◌||◌, leb, ◌==◌, if◌then◌else◌, Option,
  none, some, Memory, load8, load16, load32, Outcome, ok, running,
}
use ann_os.Libk.Mem.{Comparison, less, equal, greater, memcmp}

-- `struct SMBiosEntry`, without the reserved bytes.
pub record SmbiosEntry : Type 0 where
  pub checksum : ℕ
  pub length : ℕ
  pub major : ℕ
  pub minor : ℕ
  pub max_structure_size : ℕ
  pub entry_point_revision : ℕ
  pub interm_checksum : ℕ
  pub smbios_struct_len : ℕ
  pub smbios_struct_addr : ℕ
  pub smbios_struct_count : ℕ
  pub smbios_bcd_revision : ℕ

-- The structure at an address: it is packed, so the offsets are the sums of the sizes.
abbrev pub smbios_entry : Memory → ℕ → SmbiosEntry
smbios_entry m a = record {
  checksum = load8 m (a + 4);
  length = load8 m (a + 5);
  major = load8 m (a + 6);
  minor = load8 m (a + 7);
  max_structure_size = load16 m (a + 8);
  entry_point_revision = load8 m (a + 10);
  interm_checksum = load8 m (a + 21);
  smbios_struct_len = load16 m (a + 22);
  smbios_struct_addr = load32 m (a + 24);
  smbios_struct_count = load16 m (a + 28);
  smbios_bcd_revision = load8 m (a + 30);
}

-- `struct SMBiosStrHeader`
pub record SmbiosStrHeader : Type 0 where
  pub type : ℕ
  pub length : ℕ
  pub handle : ℕ

abbrev pub str_header : Memory → ℕ → SmbiosStrHeader
str_header m a = record { type = load8 m a; length = load8 m (a + 1); handle = load16 m (a + 2) }

-- The loop of `CheckIfChecksumValid`, in an `unsigned char`.
unfoldable pub checksum_loop : Memory → ℕ → ℕ → ℕ → ℕ
checksum_loop m a zero total = total
checksum_loop m a (suc rounds) total = checksum_loop m (a + 1) rounds ((total + load8 m a) % 256)

unfoldable pub check_if_checksum_valid : Memory → ℕ → Bool
check_if_checksum_valid m e = checksum_loop m e (smbios_entry m e).length 0 == 0

-- `!memcmp(…)`
abbrev pub is_equal : Comparison → Bool
is_equal less = false
is_equal equal = true
is_equal greater = false

abbrev pub smbios_start : ℕ
smbios_start = 0xc00f0000

-- `entry_magic` and `interm_magic` are the addresses of the two literals.
module _ (entry_magic interm_magic : ℕ) where
  -- The three tests of a round.
  unfoldable pub is_entry_point : Memory → ℕ → Bool
  is_entry_point m addr =
      is_equal (memcmp m entry_magic addr 4)
      && (is_equal (memcmp m interm_magic (addr + 0x10) 5) && check_if_checksum_valid m addr)

  unfoldable pub detect_loop : Memory → ℕ → ℕ → Option ℕ
  detect_loop m zero addr = none
  detect_loop m (suc rounds) addr =
      let rest = detect_loop m rounds (addr + 0x10) in
      if is_entry_point m addr then some addr else rest

  -- `Detect`: the entry address that it stores when it returns true. There are 0x1000 addresses
  -- from 0xc00f0000 to 0xc0100000.
  unfoldable pub detect : Memory → Option ℕ
  detect m = detect_loop m 0x1000 smbios_start

-- `ch[0] <= 31 || ch[0] >= 127`, where a `char` from 128 on is negative.
abbrev pub is_unprintable : ℕ → Bool
is_unprintable c = leb c 31 || leb 127 c

-- The loop of `GetSMBiosString`. `limit` is the length of all tables, `start` the first string.
unfoldable pub string_loop : ℕ → Memory → ℕ → ℕ → ℕ → ℕ → ℕ → ℕ → Outcome (Option ℕ)
string_loop zero m limit len start idx str_idx str_off = running
string_loop (suc fuel) m limit len start idx str_idx str_off =
    let ch = start + (str_off + 1) in
    let ended = load8 m ch == 0 in
    let rest =
      string_loop fuel m limit len start idx (if ended then str_idx + 1 else str_idx)
        (if ended then str_off + 1 + 1 else str_off + 1) in
    if leb limit (len + str_off)
    then ok none
    else if idx == str_idx
    then ok (some (start + str_off))
    else if ended
    then (if (load8 m (ch + 1) == 0) && not (load8 m (ch + 2) == 0) then ok none else rest)
    else if is_unprintable (load8 m ch)
    then ok none
    else rest

-- `GetSMBiosString` for the entry `e`: the address of the string, or `none` for `NULL`.
unfoldable pub get_smbios_string : Memory → ℕ → ℕ → ℕ → Outcome (Option ℕ)
get_smbios_string m e hdr idx =
    let len = (str_header m hdr).length in
    let limit = (smbios_entry m e).smbios_struct_len in
    let start = hdr + len in
    if (load8 m start == 0) && (load8 m (start + 1) == 0)
    then ok none
    else string_loop (suc (limit - len)) m limit len start idx 1 0
