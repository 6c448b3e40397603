-- ===== src/Syspage/Align/Word.antt =====
-- `ALIGN_ADDR` on a target whose addresses have 32 bits, as the other modules use it.
use native.Mathlib.Nat.{div-add-mod, one-le-pow}
use plo.Common.{ℕ, ◌+◌, ◌-◌, ◌*◌, ◌/◌, ◌%◌, ◌^◌, ◌≤◌, ◌<◌, ◌≡◌, ap, arith, subst}
use plo.Syspage.Align.{align_addr}
use plo.Syspage.Align.Round.{align_addr_up, floor_bounds}

-- What `align_addr_up` says of one word.
abbrev pub IsNextMultiple : ℕ → ℕ → ℕ → Type 0
IsNextMultiple d addr r = (addr ≤ r) × (r < addr + d) × (r % d ≡ 0)

pub align_word :
    (k addr : ℕ)
    → k ≤ 32
    → addr + 2 ^ k ≤ 2 ^ 32
    → IsNextMultiple (2 ^ k) addr (align_addr 32 32 addr (2 ^ k))
align_word k addr hk h =
    subst (λ w. addr + 2 ^ k ≤ 2 ^ w → IsNextMultiple (2 ^ k) addr (align_addr w w addr (2 ^ k)))
      {x = (32 - k) + k} {y = 32} (omega arith) (align_addr_up (32 - k) k addr) h

next_step : (d p q : ℕ) → p < q → d * p + d ≤ d * q
next_step d p q h = grind arith

-- `x` rounded up to a multiple of `d`.
abbrev pub up : ℕ → ℕ → ℕ
up d x = (x + (d - 1)) / d * d

pub up_bounds : (d x : ℕ) → 0 < d → (x ≤ up d x) × (up d x < x + d) × (up d x % d ≡ 0)
up_bounds d x h = omega (arith, floor_bounds d (x + (d - 1)) h)

multiples_le : (d a r : ℕ) → 0 < d → a % d ≡ 0 → r % d ≡ 0 → r < a + d → r ≤ a
multiples_le d a r hd ha hr lt = ground (
  arith,
  div-add-mod r d,
  div-add-mod a d,
  next_step d (a / d) (r / d),
  next_step d (r / d) (a / d),
  ap (λ (t : ℕ). d * t) {x = a / d} {y = r / d},
)

pub up_least : (d x y : ℕ) → 0 < d → x ≤ y → y % d ≡ 0 → up d x ≤ y
up_least d x y h le e =
    multiples_le d y (up d x) h e (up_bounds d x h).2 (omega (arith, up_bounds d x h))

-- The macro rounds up where the sum does not wrap.
pub align_word-up :
    (k addr : ℕ) → k ≤ 32 → addr + 2 ^ k ≤ 2 ^ 32 → align_addr 32 32 addr (2 ^ k) ≡ up (2 ^ k) addr
align_word-up k addr hk h =
    let hd : 0 < 2 ^ k = omega (arith, one-le-pow k 2) in
    let r = align_word k addr hk h in
    let u = up_bounds (2 ^ k) addr hd in
    let below = multiples_le (2 ^ k) (up (2 ^ k) addr) _ hd u.2 r.2 (omega arith) in
    let above = multiples_le (2 ^ k) _ (up (2 ^ k) addr) hd r.2 u.2 (omega arith) in omega arith
