-- ===== src/Libk/Mem.antt =====
-- src/libk/stdlib.cpp: `memcmp`, `memcpy` and `memset` over byte memory. A loop counts the rounds
-- that are left; `i` stays below `len`, so it does not wrap, and neither do the addresses, as no
-- object reaches the end of the address space.
pub mod Laws
use ann_os.Base.{ℕ, zero, suc, ◌+◌, ◌-◌, ltb, ◌==◌, if◌then◌else◌, Memory, load8, store8}

-- What `memcmp` returns: -1, 0 or 1.
pub data Comparison : Type 0 where
  less equal greater : Comparison

-- `char` is signed on i686, so a byte from 128 on is negative and comes first.
abbrev pub char_rank : ℕ → ℕ
char_rank byte = if ltb byte 128 then byte + 128 else byte - 128

compare_bytes : ℕ → ℕ → Comparison → Comparison
compare_bytes a b rest =
    if a == b then rest else if ltb (char_rank a) (char_rank b) then less else greater

unfoldable pub memcmp : Memory → ℕ → ℕ → ℕ → Comparison
unfolding compare_bytes
memcmp m s1 s2 zero = equal
memcmp m s1 s2 (suc len) =
    let rest = memcmp m (s1 + 1) (s2 + 1) len in compare_bytes (load8 m s1) (load8 m s2) rest

-- Byte by byte from the front, so an overlapping `dest` above `src` reads what was copied.
unfoldable pub memcpy : Memory → ℕ → ℕ → ℕ → Memory
memcpy m dest src zero = m
memcpy m dest src (suc len) = memcpy (store8 m dest (load8 m src)) (dest + 1) (src + 1) len

unfoldable pub memset : Memory → ℕ → ℕ → ℕ → Memory
memset m s c zero = m
memset m s c (suc n) = memset (store8 m s c) (s + 1) c n

-- src/libk/stdio.cpp passes these two on, so neither stops at a terminator.
abbrev pub strncmp : Memory → ℕ → ℕ → ℕ → Comparison
strncmp m str1 str2 len = memcmp m str1 str2 len

abbrev pub strncpy : Memory → ℕ → ℕ → ℕ → Memory
strncpy m dest src len = memcpy m dest src len
