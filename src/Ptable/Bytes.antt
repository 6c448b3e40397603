-- ===== src/Ptable/Bytes.antt =====
-- The memory that a partition table lies in: a byte at each address.
use plo.Common.{ℕ, zero, suc, ◌+◌, ◌*◌, ◌/◌, ◌%◌, ◌^◌, ◌<◌, [], ◌∷◌, ◌==◌, if◌then◌else◌, arith}
use plo.Common.CString.{Bytes}

abbrev pub Memory : Type 0
Memory = ℕ → ℕ

unfoldable pub read8 : Memory → ℕ → ℕ
read8 m a = m a % 2 ^ 8

-- The least byte first.
unfoldable pub read32 : Memory → ℕ → ℕ
read32 m a =
    read8 m a + read8 m (a + 1) * 2 ^ 8 + read8 m (a + 2) * 2 ^ 16 + read8 m (a + 3) * 2 ^ 24

unfoldable pub bytes_at : Memory → ℕ → ℕ → Bytes
bytes_at m a zero = []
bytes_at m a (suc n) = read8 m a ∷ bytes_at m (suc a) n

unfoldable pub write8 : Memory → ℕ → ℕ → Memory
write8 m a v = λ x. if x == a then v % 2 ^ 8 else m x

unfoldable pub write32 : Memory → ℕ → ℕ → Memory
write32 m a v =
    write8 (write8 (write8 (write8 m a v) (a + 1) (v / 2 ^ 8)) (a + 2) (v / 2 ^ 16)) (a + 3)
      (v / 2 ^ 24)

unfoldable pub write_bytes : Memory → ℕ → Bytes → Memory
write_bytes m a [] = m
write_bytes m a (b ∷ bs) = write_bytes (write8 m a b) (suc a) bs

pub read32_lt : (m : Memory) (a : ℕ) → read32 m a < 2 ^ 32
unfolding read32 read8
read32_lt m a = omega arith
