-- ===== src/Syspage/Align.antt =====
-- The macro `ALIGN_ADDR` of syspage.c.
pub mod Round
pub mod Word
use plo.Common.{ℕ, ◌+◌, ◌-◌, ◌%◌, ◌^◌, bit_and, ◌==◌, if◌then◌else◌}

-- `addr` has `w` bits and `align` has `a`: `~(align - 1)` is computed at the type of `align`, and
-- only then widened to that of `addr`.
unfoldable pub align_addr : ℕ → ℕ → ℕ → ℕ → ℕ
align_addr w a addr align =
    if align == 0 then addr else bit_and ((addr + (align - 1)) % 2 ^ w) (2 ^ a - align)
