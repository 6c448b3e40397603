-- ===== src/FlashImxrt/Sizes.antt =====
-- devices/flash-imxrt/flashdrv.c: the sizes of a chip, and the addresses of its sectors.
use native.Mathlib.Nat.{one-le-pow, div-add-mod}
use plo.Common.{
  ℕ, suc, ◌+◌, ◌-◌, ◌*◌, ◌/◌, ◌^◌, ◌≤◌, ◌<◌, ◌≡◌, ◌≢◌, subst, ap, sym, ◌∙◌, arith, length, bit_and,
}
use plo.Syspage.Align.Round.{masked, two-pow-add, quotient-lt}
use plo.FlashImxrt.{NorDevice, sector_address}

-- The chip's sectors are powers of two, and made of whole pages; the buffer holds a sector.
pub record IsSized {F : Type 0} (dev : NorDevice F) : Type 0 where
  pub k : ℕ
  pub pages : ℕ
  pub k-lt : k < 32
  pub sector : dev.nor.sector_sz ≡ 2 ^ k
  pub sector-pages : dev.nor.sector_sz ≡ pages * dev.nor.page_sz
  pub page : 0 < dev.nor.page_sz
  pub buffer : dev.nor.sector_sz ≤ length dev.sector_buf
  pub prev : dev.sector_prev_addr < 2 ^ 32

-- The first address of the sector of `addr`.
abbrev pub sector_of : {F : Type 0} → NorDevice F → ℕ → ℕ
sector_of dev addr = addr / dev.nor.sector_sz * dev.nor.sector_sz

pub sector_address-sector_of :
    {F : Type 0} (dev : NorDevice F) (addr : ℕ)
    → IsSized dev
    → addr < 2 ^ 32
    → sector_address dev addr ≡ sector_of dev addr
unfolding sector_address
sector_address-sector_of dev addr s h =
    let whole : (32 - s.k) + s.k ≡ 32 = omega (arith, s.k-lt) in
    rw s.sector (
      subst (λ w. addr < 2 ^ w → bit_and addr (2 ^ w - 2 ^ s.k) ≡ addr / 2 ^ s.k * 2 ^ s.k) whole
        (masked (32 - s.k) s.k addr) h)

pub fewer : (m p e : ℕ) → e ≡ m * p → 0 < p → m < suc e
fewer m p e h pos = grind arith

pub regroup : (q m p e : ℕ) → e ≡ m * p → q * m * p ≡ q * e
regroup q m p e h = grind arith

pub sector-small : {F : Type 0} (dev : NorDevice F) → IsSized dev → dev.nor.sector_sz < 2 ^ 32
sector-small dev s =
    let whole : (31 - s.k) + s.k ≡ 31 = omega (arith, s.k-lt) in
    let split : 2 ^ (31 - s.k) * 2 ^ s.k ≡ 2 ^ 31 =
      sym (two-pow-add (31 - s.k) s.k) ∙ ap (λ (w : ℕ). 2 ^ w) whole in
    let small : 2 ^ s.k ≤ 2 ^ 31 =
      below (2 ^ (31 - s.k)) (2 ^ s.k) (2 ^ 31) (omega (arith, one-le-pow (31 - s.k) 2)) split in
    rw s.sector (omega arith)
  where
    below : (p d e : ℕ) → 1 ≤ p → p * d ≡ e → d ≤ e
    below p d e lt h = grind arith

pub sector-pos : {F : Type 0} (dev : NorDevice F) → IsSized dev → 0 < dev.nor.sector_sz
sector-pos dev s = rw s.sector (omega (arith, one-le-pow s.k 2))

-- Addresses that are a sector apart are of different sectors.
pub sectors_apart : (a d b : ℕ) → 0 < d → a + d ≤ b → a / d ≢ b / d
sectors_apart a d b pos h e = grind arith

-- The sector ends where the addresses end, or before.
pub sector_of-fits :
    {F : Type 0} (dev : NorDevice F) (addr : ℕ)
    → IsSized dev
    → addr < 2 ^ 32
    → sector_of dev addr + dev.nor.sector_sz ≤ 2 ^ 32
sector_of-fits dev addr s h =
    let whole : (32 - s.k) + s.k ≡ 32 = omega (arith, s.k-lt) in
    let split : 2 ^ (32 - s.k) * 2 ^ s.k ≡ 2 ^ 32 =
      sym (two-pow-add (32 - s.k) s.k) ∙ ap (λ (w : ℕ). 2 ^ w) whole in
    let below =
      subst (λ w. addr < 2 ^ w → addr / 2 ^ s.k < 2 ^ (32 - s.k)) whole
        (quotient-lt (32 - s.k) s.k addr) h in
    rw s.sector (next_multiple (addr / 2 ^ s.k) (2 ^ (32 - s.k)) (2 ^ s.k) (2 ^ 32) below split)
  where
    next_multiple : (q p d e : ℕ) → q < p → p * d ≡ e → q * d + d ≤ e
    next_multiple q p d e lt h = grind arith

-- Quotients, and the multiples below and between numbers.
pub quotient_le : (a b d : ℕ) → 0 < d → a ≤ b → a / d ≤ b / d
quotient_le a b d pos le = grind arith

pub span_lt : (p q d : ℕ) → 0 < d → q - p < suc (q * d)
span_lt p q d pos = grind arith

pub span_end : (p q d : ℕ) → p ≤ q → p * d + (q - p) * d ≡ q * d
span_end p q d le = grind arith

pub floor_le : (a d : ℕ) → a / d * d ≤ a
floor_le a d = omega (arith, div-add-mod a d)
