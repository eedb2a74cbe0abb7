-- ===== src/Smbios/Tests.antt =====
-- The theorems on SMBIOS at concrete inputs: a memory with an entry point at 0xc00f0020, a
-- structure of 5 bytes at 0x100 with the strings "AB" and "C", and one more behind it.
use ann_os.Base.{
  ℕ, ◌-◌, ◌≡◌, refl, ltb, ◌==◌, ◌&&◌, leb, if◌then◌else◌, some, List, [], ◌∷◌, true, Memory, arith,
  ok, codes,
}
use ann_os.Smbios.{
  is_entry_point, check_if_checksum_valid, checksum_loop, detect, get_smbios_string,
}
use ann_os.Smbios.Walk.{next_struct}
use ann_os.Smbios.Detection.{Literals, Detected, detect-first}
use ann_os.Smbios.Returning.{Returned, get_smbios_string_total}
use ann_os.Smbios.Lookup.{Strings, get_smbios_string-nth_string}
use ann_os.Smbios.Advance.{next_struct-total}

abbrev byte_at : List ℕ → ℕ → ℕ
byte_at [] i = 0
byte_at (b ∷ bs) i = if i == 0 then b else byte_at bs (i - 1)

abbrev structure : List ℕ
structure = 127 ∷ 5 ∷ 1 ∷ 0 ∷ 0 ∷ b'A' ∷ b'B' ∷ 0 ∷ b'C' ∷ 0 ∷ 0 ∷ 1 ∷ []

-- The length of all tables is 0x40. The checksum of the 11 bytes is right.
abbrev entry : List ℕ
entry =
    b'_' ∷ b'S' ∷ b'M' ∷ b'_' ∷ 0x8d ∷ 11 ∷ 2 ∷ 8 ∷ 0 ∷ 0 ∷ 0 ∷ 0 ∷ 0 ∷ 0 ∷ 0 ∷ 0 ∷ b'_' ∷ b'D'
    ∷ b'M' ∷ b'I' ∷ b'_' ∷ 0 ∷ 0x40 ∷ 0 ∷ 0 ∷ 1 ∷ 0 ∷ 0 ∷ 2 ∷ 0 ∷ 0 ∷ []

abbrev firmware : Memory
firmware a =
    if leb 0xc00f0020 a && ltb a 0xc00f0040
    then byte_at entry (a - 0xc00f0020)
    else if leb 0x100 a && ltb a 0x110
    then byte_at structure (a - 0x100)
    else if leb 0x200 a && ltb a 0x205
    then byte_at (codes "_SM_") (a - 0x200)
    else if leb 0x210 a && ltb a 0x216
    then byte_at (codes "_DMI_") (a - 0x210)
    else 0

literals : Literals firmware 0x200 0x210
literals = record {
  entry = (refl, (refl, (refl, (refl, tt))));
  interm = (refl, (refl, (refl, (refl, (refl, tt)))));
}

detect-first_example : Detected firmware (detect 0x200 0x210 firmware)
detect-first_example = detect-first 0x200 0x210 firmware literals

found_point : is_entry_point 0x200 0x210 firmware 0xc00f0020 ≡ true
unfolding is_entry_point check_if_checksum_valid checksum_loop ann_os.Libk.Mem.memcmp
found_point = refl

get_smbios_string_total_example : Returned (get_smbios_string firmware 0xc00f0020 0x100 7)
get_smbios_string_total_example = get_smbios_string_total firmware 0xc00f0020 0x100 7

strings : Strings firmware 0x105 ((b'A' ∷ b'B' ∷ []) ∷ (b'C' ∷ []) ∷ [])
strings = (
  (refl, omega arith, omega arith, (refl, omega arith, omega arith, refl)),
  ((refl, omega arith, omega arith, refl), (refl, omega arith)),
)

get_smbios_string-nth_string_example :
    get_smbios_string firmware 0xc00f0020 0x100 2 ≡ ok (some 0x108)
get_smbios_string-nth_string_example =
    get_smbios_string-nth_string firmware 0xc00f0020 0x100 2 b'A' (b'B' ∷ []) ((b'C' ∷ []) ∷ [])
      strings (omega arith)

next_struct-total_example : next_struct 10 firmware 0xc00f0020 0x100 ≡ ok 0x10b
next_struct-total_example =
    next_struct-total firmware 0xc00f0020 0x100 10 b'A' (b'B' ∷ []) ((b'C' ∷ []) ∷ []) strings
      (omega arith) (omega arith)
