-- ===== src/Smbios/Tables.antt =====
-- The structures of src/include/arch/x86/SMBIOS.hpp, and the `Parse` methods of
-- src/arch/x86/SMBIOS.cpp: what each one reads of its structure and hands to the log, a string as
-- its address, or `none` where the log has `<null>` or a null pointer.
use ann_os.Base.{
  ℕ, ◌+◌, ◌*◌, ◌/◌, not, ◌==◌, if◌then◌else◌, Option, bit_and, mul32, Memory, load8, load16, load32,
  load64, Outcome, ok, ◌>>=◌,
}
use ann_os.Smbios.{get_smbios_string, str_header}

-- `SMBios_BiosInfo`
pub record BiosInfo : Type 0 where
  pub vendor_strptr : ℕ
  pub version_strptr : ℕ
  pub starting_segment : ℕ
  pub releasedate_strptr : ℕ
  pub rom_size : ℕ
  pub bios_characteristics : ℕ

abbrev pub bios_info : Memory → ℕ → BiosInfo
bios_info m a = record {
  vendor_strptr = load8 m (a + 4);
  version_strptr = load8 m (a + 5);
  starting_segment = load16 m (a + 6);
  releasedate_strptr = load8 m (a + 8);
  rom_size = load8 m (a + 9);
  bios_characteristics = load64 m (a + 10);
}

-- `SMBios_SysInfo`, without the identifier of 16 bytes.
pub record SysInfo : Type 0 where
  pub manufacturer_sp : ℕ
  pub prodname_sp : ℕ
  pub version_sp : ℕ
  pub serialnumber_sp : ℕ
  pub wakeup_event : ℕ
  pub sku_number_sp : ℕ
  pub model_family_sp : ℕ

abbrev pub sys_info : Memory → ℕ → SysInfo
sys_info m a = record {
  manufacturer_sp = load8 m (a + 4);
  prodname_sp = load8 m (a + 5);
  version_sp = load8 m (a + 6);
  serialnumber_sp = load8 m (a + 7);
  wakeup_event = load8 m (a + 24);
  sku_number_sp = load8 m (a + 25);
  model_family_sp = load8 m (a + 26);
}

-- `SMBios_Baseboard`
pub record Baseboard : Type 0 where
  pub manufacturer_sp : ℕ
  pub prodname_sp : ℕ
  pub version_sp : ℕ
  pub serialnumber_sp : ℕ
  pub asset_tag_sp : ℕ
  pub feature_flags : ℕ
  pub chassis_location_sp : ℕ
  pub chassis_handle : ℕ
  pub board_type : ℕ

abbrev pub baseboard : Memory → ℕ → Baseboard
baseboard m a = record {
  manufacturer_sp = load8 m (a + 4);
  prodname_sp = load8 m (a + 5);
  version_sp = load8 m (a + 6);
  serialnumber_sp = load8 m (a + 7);
  asset_tag_sp = load8 m (a + 8);
  feature_flags = load8 m (a + 9);
  chassis_location_sp = load8 m (a + 10);
  chassis_handle = load16 m (a + 11);
  board_type = load8 m (a + 13);
}

-- `SMBios_Processor`
pub record Processor : Type 0 where
  pub socket_sp : ℕ
  pub proc_type : ℕ
  pub proc_family : ℕ
  pub proc_manufacturer_sp : ℕ
  pub proc_id : ℕ
  pub proc_version_sp : ℕ
  pub voltage : ℕ
  pub clock_mhz : ℕ
  pub max_speed_mhz : ℕ
  pub curr_speed_mhz : ℕ
  pub status : ℕ

abbrev pub processor : Memory → ℕ → Processor
processor m a = record {
  socket_sp = load8 m (a + 4);
  proc_type = load8 m (a + 5);
  proc_family = load8 m (a + 6);
  proc_manufacturer_sp = load8 m (a + 7);
  proc_id = load64 m (a + 8);
  proc_version_sp = load8 m (a + 16);
  voltage = load8 m (a + 17);
  clock_mhz = load16 m (a + 18);
  max_speed_mhz = load16 m (a + 20);
  curr_speed_mhz = load16 m (a + 22);
  status = load8 m (a + 24);
}

-- `SMBios_MemDevice`
pub record MemDevice : Type 0 where
  pub memarray_handle : ℕ
  pub memerr_handle : ℕ
  pub total_width : ℕ
  pub data_width : ℕ
  pub size : ℕ
  pub form_factor : ℕ
  pub device_set_id : ℕ
  pub device_location_sp : ℕ
  pub bank_location_sp : ℕ
  pub mem_type : ℕ
  pub mem_type_detail : ℕ
  pub speed_mhz : ℕ
  pub manufacturer_sp : ℕ
  pub serialnumber_sp : ℕ
  pub asset_tag_sp : ℕ
  pub part_number_sp : ℕ
  pub attributes : ℕ
  pub extended_size : ℕ

abbrev pub mem_device : Memory → ℕ → MemDevice
mem_device m a = record {
  memarray_handle = load16 m (a + 4);
  memerr_handle = load16 m (a + 6);
  total_width = load16 m (a + 8);
  data_width = load16 m (a + 10);
  size = load16 m (a + 12);
  form_factor = load8 m (a + 14);
  device_set_id = load8 m (a + 15);
  device_location_sp = load8 m (a + 16);
  bank_location_sp = load8 m (a + 17);
  mem_type = load8 m (a + 18);
  mem_type_detail = load16 m (a + 19);
  speed_mhz = load16 m (a + 21);
  manufacturer_sp = load8 m (a + 23);
  serialnumber_sp = load8 m (a + 24);
  asset_tag_sp = load8 m (a + 25);
  part_number_sp = load8 m (a + 26);
  attributes = load8 m (a + 27);
  extended_size = load32 m (a + 28);
}

-- The computation of `size_kb`, in an `unsigned`.
unfoldable pub size_kb : MemDevice → ℕ
size_kb d =
    if d.size == 0x7fff
    then mul32 d.extended_size 1024
    else if not (bit_and d.size 0x8000 == 0)
    then bit_and d.size 0x7fff
    else mul32 d.size 1024

-- A string that a method looks up, by what it is logged as.
pub data Parsed : Type 0 where
  bios : (vendor version rdate : Option ℕ) → (starting_segment rom_kb : ℕ) → Parsed
  sys : (manufacturer product version serialnum sku model : Option ℕ) → (wakeup_event : ℕ) → Parsed
  board : (manufacturer product version serialnum : Option ℕ) → (board_type : ℕ) → Parsed
  proc : (socket manufacturer version : Option ℕ) → Processor → Parsed
  mem :
      (manufacturer serialnum asset_tag part_number location bank : Option ℕ)
      → (size_mb speed_mhz : ℕ) → Parsed
  other : Parsed

module _ (m : Memory) (e hdr : ℕ) where
  unfoldable pub parse_bios_information : Outcome Parsed
  parse_bios_information = do
    let b = bios_info m hdr
    vendor ← get_smbios_string m e hdr b.vendor_strptr
    version ← get_smbios_string m e hdr b.version_strptr
    rdate ← get_smbios_string m e hdr b.releasedate_strptr
    ok (bios vendor version rdate b.starting_segment (64 * (b.rom_size + 1)))

  -- The last two look up the serial number again.
  unfoldable pub parse_sys_information : Outcome Parsed
  parse_sys_information = do
    let s = sys_info m hdr
    manufacturer ← get_smbios_string m e hdr s.manufacturer_sp
    product ← get_smbios_string m e hdr s.prodname_sp
    version ← get_smbios_string m e hdr s.version_sp
    serialnum ← get_smbios_string m e hdr s.serialnumber_sp
    sku ← get_smbios_string m e hdr s.serialnumber_sp
    model ← get_smbios_string m e hdr s.serialnumber_sp
    ok (sys manufacturer product version serialnum sku model s.wakeup_event)

  unfoldable pub parse_board_information : Outcome Parsed
  parse_board_information = do
    let b = baseboard m hdr
    manufacturer ← get_smbios_string m e hdr b.manufacturer_sp
    product ← get_smbios_string m e hdr b.prodname_sp
    version ← get_smbios_string m e hdr b.version_sp
    serialnum ← get_smbios_string m e hdr b.serialnumber_sp
    ok (board manufacturer product version serialnum b.board_type)

  unfoldable pub parse_sys_processor : Outcome Parsed
  parse_sys_processor = do
    let p = processor m hdr
    socket ← get_smbios_string m e hdr p.socket_sp
    manufacturer ← get_smbios_string m e hdr p.proc_manufacturer_sp
    version ← get_smbios_string m e hdr p.proc_version_sp
    ok (proc socket manufacturer version p)

  unfoldable pub parse_mem_device : Outcome Parsed
  parse_mem_device = do
    let d = mem_device m hdr
    manufacturer ← get_smbios_string m e hdr d.manufacturer_sp
    serialnum ← get_smbios_string m e hdr d.serialnumber_sp
    asset_tag ← get_smbios_string m e hdr d.asset_tag_sp
    part_number ← get_smbios_string m e hdr d.part_number_sp
    location ← get_smbios_string m e hdr d.device_location_sp
    bank ← get_smbios_string m e hdr d.bank_location_sp
    ok (
        mem manufacturer serialnum asset_tag part_number location bank (size_kb d / 1024)
          d.speed_mhz)

  -- The `switch` on the type of the structure.
  unfoldable pub parse : Outcome Parsed
  parse =
      let type = (str_header m hdr).type in
      if type == 0
      then parse_bios_information
      else if type == 1
      then parse_sys_information
      else if type == 2
      then parse_board_information
      else if type == 4
      then parse_sys_processor
      else if type == 17
      then parse_mem_device
      else ok other
