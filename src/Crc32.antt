-- ===== src/Crc32.antt =====
-- lib/crc32.c, the version without the table, which is the one that is built: `USE_CRC32_TAB` is
-- nowhere defined.
use plo.Common.{ℕ, zero, suc, ◌/◌, ◌%◌, [], ◌∷◌, bit_xor, ◌==◌, if◌then◌else◌}
use plo.Common.CString.{Bytes}

-- `CRC32POLY_LE`
abbrev pub poly : ℕ
poly = 0xedb8_8320

-- `crc = (crc >> 1) ^ ((crc & 1) ? CRC32POLY_LE : 0)`
unfoldable pub bit_step : ℕ → ℕ
bit_step crc = bit_xor (crc / 2) (if crc % 2 == 1 then poly else 0)

unfoldable pub bit_steps : ℕ → ℕ → ℕ
unfolding bit_step
bit_steps zero crc = crc
bit_steps (suc n) crc = bit_steps n (bit_step crc)

-- `lib_crc32(buf, len, base)`
unfoldable pub crc32 : Bytes → ℕ → ℕ
unfolding bit_steps
crc32 [] crc = crc
crc32 (b ∷ bs) crc = crc32 bs (bit_steps 8 (bit_xor crc b))
