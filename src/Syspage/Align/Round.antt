-- ===== src/Syspage/Align/Round.antt =====
-- What `ALIGN_ADDR` computes where the alignment is a power of two.
use Prim.Native.Nat.{bit_and-bitwise}
use native.Mathlib.Nat.{pow-suc, one-le-pow, add-zero, mod-eq_of_lt}
use mathlib.Core.WellFounded
use plo.Common.{ℕ, zero, suc, ◌+◌, ◌-◌, ◌*◌, ◌/◌, ◌%◌, ◌^◌, ◌≤◌, ◌<◌, ◌≡◌, ◌≢◌, ap, arith, bit_and}
use plo.Common.Bits.{bit_and-digit, bit_and_field}
use plo.Common.Order.{lt_wf}
use plo.Syspage.Align.{align_addr}

pub two-pow-add : (m k : ℕ) → 2 ^ (m + k) ≡ 2 ^ m * 2 ^ k
two-pow-add m zero = rw add-zero (omega arith)
two-pow-add m (suc k) = omega (
  arith,
  pow-suc 2 (m + k),
  pow-suc 2 k,
  two-pow-add m k,
  ap (λ (t : ℕ). 2 ^ m * t) (pow-suc 2 k),
  ap (λ (t : ℕ). 2 ^ t) {x = m + suc k} {y = suc (m + k)} (omega arith),
)

less_one : (p q : ℕ) → 0 < p → p * q - q ≡ (p - 1) * q
less_one zero q h = absurd (omega arith)
less_one (suc p) q h = omega (
  arith,
  ap (λ (t : ℕ). t * q) {x = suc p} {y = p + 1} (omega arith),
  ap (λ (t : ℕ). t * q) {x = suc p - 1} {y = p} (omega arith),
)

-- `~(align - 1)`
complement : (m k : ℕ) → 2 ^ (m + k) - 2 ^ k ≡ (2 ^ m - 1) * 2 ^ k
complement m k = rw two-pow-add (less_one (2 ^ m) (2 ^ k) (omega (arith, one-le-pow m 2)))

pub quotient-lt : (m k x : ℕ) → x < 2 ^ (m + k) → x / 2 ^ k < 2 ^ m
quotient-lt m k x h = grind (arith, two-pow-add m k, one-le-pow k 2)

pub masked : (m k x : ℕ) → x < 2 ^ (m + k) → bit_and x (2 ^ (m + k) - 2 ^ k) ≡ x / 2 ^ k * 2 ^ k
masked m k x h = rw (complement m k, bit_and_field k m x, mod-eq_of_lt (quotient-lt m k x h))

-- With both operands of one width, the sum wraps and is then cut down to a multiple.
pub align_addr_multiple :
    (m k addr : ℕ)
    → align_addr (m + k) (m + k) addr (2 ^ k) ≡ (addr + (2 ^ k - 1)) % 2 ^ (m + k) / 2 ^ k * 2 ^ k
unfolding align_addr
align_addr_multiple m k addr =
    ground
      (arith, one-le-pow k 2, one-le-pow (m + k) 2, masked m k ((addr + (2 ^ k - 1)) % 2 ^ (m + k)))

pub floor_bounds : (d y : ℕ) → 0 < d → (y / d * d ≤ y) × (y < y / d * d + d) × (y / d * d % d ≡ 0)
floor_bounds d y h = (grind arith, grind arith, grind arith)

-- `ALIGN_ADDR(addr, 1 << k)` at one width is the first multiple of `1 << k` from `addr` on, if
-- the sum does not wrap.
pub align_addr_up :
    (m k addr : ℕ)
    → addr + 2 ^ k ≤ 2 ^ (m + k)
    → (addr ≤ align_addr (m + k) (m + k) addr (2 ^ k))
      × (align_addr (m + k) (m + k) addr (2 ^ k) < addr + 2 ^ k)
      × (align_addr (m + k) (m + k) addr (2 ^ k) % 2 ^ k ≡ 0)
align_addr_up m k addr h = ground (
  arith,
  one-le-pow k 2,
  align_addr_multiple m k addr,
  mod-eq_of_lt {n = addr + (2 ^ k - 1)} {m = 2 ^ (m + k)},
  floor_bounds (2 ^ k) (addr + (2 ^ k - 1)),
)

bit_and_zero_left : (b : ℕ) → bit_and 0 b ≡ 0
bit_and_zero_left b = bit_and-bitwise 0 b

bit_and-le : (a b : ℕ) → bit_and a b ≤ b
bit_and-le a b =
    WellFounded.induction lt_wf {C = λ n. (b : ℕ) → bit_and n b ≤ b} a (λ n ih. halve n ih) b
  where
    halve : (n : ℕ) → ((m : ℕ) → m < n → (b : ℕ) → bit_and m b ≤ b) → (b : ℕ) → bit_and n b ≤ b
    halve zero ih b = omega (arith, bit_and_zero_left b)
    halve (suc n) ih b =
        omega (arith, bit_and-digit (suc n) b, ih (suc n / 2) (omega arith) (b / 2))

-- Where the address has more bits than the alignment, the mask has zeros above: with an `unsigned
-- int` alignment every result lies below 4 GiB, whatever the 64-bit address.
pub align_addr_narrow :
    (addr align : ℕ) → align ≢ 0 → align < 2 ^ 32 → align_addr 64 32 addr align < 2 ^ 32
unfolding align_addr
align_addr_narrow addr align ne h =
    ground (arith, bit_and-le ((addr + (align - 1)) % 2 ^ 64) (2 ^ 32 - align))
