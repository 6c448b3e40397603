-- ===== src/Common/Bits.antt =====
-- The C operators `&`, `|`, `<<` and `>>` on unsigned words, as arithmetic at every width.
use Prim.Native.Nat.{
  ℕ, zero, suc, ◌+◌, ◌-◌, ◌*◌, ◌/◌, ◌%◌, ◌^◌, ◌≤◌, ◌<◌, min, max, bit_and, bit_or, bitwise, digits,
  bit_and-bitwise, bit_or-bitwise,
}
use mathlib.Core.Path.{◌≡◌, refl, ap}
use mathlib.Core.WellFounded
use native.Mathlib.Nat.{pow-suc, one-le-pow}
use native.Mathlib.Omega.{arith}
use plo.Common.Order.{lt_wf}

abbrev pub u8 : ℕ → ℕ
u8 n = n % 0x100

abbrev pub u16 : ℕ → ℕ
u16 n = n % 0x1_0000

abbrev pub u32 : ℕ → ℕ
u32 n = n % 0x1_0000_0000

module _ (rest : ℕ → ℕ) (op : ℕ → ℕ → ℕ) where
  -- Any fuel from the first operand on gives the same digits.
  more_fuel : (k l a b : ℕ) → a ≤ k → a ≤ l → digits rest op k a b ≡ digits rest op l a b
  more_fuel k l zero b p q = both k l
    where
      both : (k l : ℕ) → digits rest op k zero b ≡ digits rest op l zero b
      both zero zero = refl
      both zero (suc l) = refl
      both (suc k) zero = refl
      both (suc k) (suc l) = refl
  more_fuel zero l (suc a) b p q = absurd (omega arith)
  more_fuel (suc k) zero (suc a) b p q = absurd (omega arith)
  more_fuel (suc k) (suc l) (suc a) b p q =
      ap (λ d. d * 2 + op (suc a % 2) (b % 2))
        (more_fuel k l (suc a / 2) (b / 2) (omega arith) (omega arith))

  lowest_digit :
      (a b : ℕ)
      → bitwise rest op (suc a) b ≡ bitwise rest op (suc a / 2) (b / 2) * 2 + op (suc a % 2) (b % 2)
  lowest_digit a b =
      ap (λ d. d * 2 + op (suc a % 2) (b % 2))
        (more_fuel a (suc a / 2) (suc a / 2) (b / 2) (omega arith) (omega arith))

-- The lowest bit and the rest of them: each operation acts on the two apart.
pub bit_and-digit : (x y : ℕ) → bit_and x y ≡ min (x % 2) (y % 2) + bit_and (x / 2) (y / 2) * 2
bit_and-digit zero y = omega (arith, bit_and-bitwise 0 y, bit_and-bitwise 0 (y / 2))
bit_and-digit (suc x) y =
    let top = bit_and-bitwise (suc x) y in
    let rest = bit_and-bitwise (suc x / 2) (y / 2) in
    omega (arith, lowest_digit (λ _. 0) min x y, top, rest)

pub bit_or-digit : (x y : ℕ) → bit_or x y ≡ max (x % 2) (y % 2) + bit_or (x / 2) (y / 2) * 2
bit_or-digit zero y = omega (arith, bit_or-bitwise 0 y, bit_or-bitwise 0 (y / 2))
bit_or-digit (suc x) y =
    let top = bit_or-bitwise (suc x) y in
    let rest = bit_or-bitwise (suc x / 2) (y / 2) in
    omega (arith, lowest_digit (λ z. z) max x y, top, rest)

-- `x | 0` and `x & 0`, for the words up to a bound that is halved with them.
zero_below : (bound x : ℕ) → x ≤ bound → (bit_or x 0 ≡ x) × (bit_and x 0 ≡ 0)
zero_below bound zero h = (refl, refl)
zero_below zero (suc x) h = absurd (omega arith)
zero_below (suc bound) (suc x) h =
    let (joined, met) = zero_below bound (suc x / 2) (omega arith) in
    (omega (arith, joined, bit_or-digit (suc x) 0), omega (arith, met, bit_and-digit (suc x) 0))

pub bit_or-zero : (x : ℕ) → bit_or x 0 ≡ x
bit_or-zero x = (zero_below x x (omega arith)).0

pub bit_and-zero : (x : ℕ) → bit_and x 0 ≡ 0
bit_and-zero x = (zero_below x x (omega arith)).1

pub mul-two-pow-suc : (n e : ℕ) → n * 2 ^ suc e ≡ 2 * (n * 2 ^ e)
mul-two-pow-suc n e =
    let next : 2 ^ suc e ≡ 2 * 2 ^ e = omega (arith, pow-suc 2 e) in
    omega (arith, ap (λ (p : ℕ). n * p) next)

-- Bits of both operands below `k` do not meet where the mask has none there.
pub bit_and_high :
    (k q r mask : ℕ) → r < 2 ^ k → bit_and (q * 2 ^ k + r) (mask * 2 ^ k) ≡ bit_and q mask * 2 ^ k
bit_and_high zero q r mask h = ground arith
bit_and_high (suc k) q r mask h = ground (
  arith,
  mul-two-pow-suc q k,
  mul-two-pow-suc mask k,
  mul-two-pow-suc (bit_and q mask) k,
  bit_and-digit (q * 2 ^ suc k + r) (mask * 2 ^ suc k),
  bit_and_high k q (r / 2) mask (omega (arith, pow-suc 2 k)),
)

bit_and_low : (k q r : ℕ) → r < 2 ^ k → bit_and (q * 2 ^ k + r) (2 ^ k - 1) ≡ r
bit_and_low zero q r h = omega (arith, bit_and-zero (q * 2 ^ 0 + r))
bit_and_low (suc k) q r h = ground (
  arith,
  mul-two-pow-suc q k,
  pow-suc 2 k,
  one-le-pow k 2,
  bit_and-digit (q * 2 ^ suc k + r) (2 ^ suc k - 1),
  bit_and_low k q (r / 2) (omega (arith, pow-suc 2 k)),
)

-- A mask of `k` ones.
pub bit_and_ones : (k a : ℕ) → bit_and a (2 ^ k - 1) ≡ a % 2 ^ k
bit_and_ones k a = ground (arith, one-le-pow k 2, bit_and_low k (a / 2 ^ k) (a % 2 ^ k))

-- A mask of `m` ones above `k` zeros.
pub bit_and_field : (k m a : ℕ) → bit_and a ((2 ^ m - 1) * 2 ^ k) ≡ a / 2 ^ k % 2 ^ m * 2 ^ k
bit_and_field k m a = ground (
  arith,
  one-le-pow k 2,
  bit_and_ones m (a / 2 ^ k),
  bit_and_high k (a / 2 ^ k) (a % 2 ^ k) (2 ^ m - 1),
)

-- `(q << k) | r` is a sum where `r` fits `k` bits.
pub bit_or_sum : (k q r : ℕ) → r < 2 ^ k → bit_or (q * 2 ^ k) r ≡ q * 2 ^ k + r
bit_or_sum zero q r h = ground (arith, bit_or-zero q)
bit_or_sum (suc k) q r h = ground (
  arith,
  pow-suc 2 k,
  mul-two-pow-suc q k,
  bit_or-digit (q * 2 ^ suc k) r,
  bit_or_sum k q (r / 2),
)

-- `|` does not depend on the order.
pub bit_or_comm : (a b : ℕ) → bit_or a b ≡ bit_or b a
bit_or_comm a b =
    WellFounded.induction lt_wf {C = λ n. (a b : ℕ) → a + b ≤ n → bit_or a b ≡ bit_or b a} (a + b)
      (λ n ih. swap n ih) a b (omega arith)
  where
    swap :
        (n : ℕ)
        → ((m : ℕ) → m < n → (a b : ℕ) → a + b ≤ m → bit_or a b ≡ bit_or b a)
        → (a b : ℕ) → a + b ≤ n
        → bit_or a b ≡ bit_or b a
    swap n ih zero zero h = refl
    swap n ih (suc a) b h = omega (
      arith,
      bit_or-digit (suc a) b,
      bit_or-digit b (suc a),
      ih (suc a / 2 + b / 2) (omega arith) (suc a / 2) (b / 2) (omega arith),
    )
    swap n ih zero (suc b) h = omega (
      arith,
      bit_or-digit 0 (suc b),
      bit_or-digit (suc b) 0,
      ih (0 + suc b / 2) (omega arith) 0 (suc b / 2) (omega arith),
    )
