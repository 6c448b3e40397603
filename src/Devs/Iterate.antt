-- ===== src/Devs/Iterate.antt =====
-- devices/devs.c: what `devs_iterNext` returns at each state of the iteration.
use plo.Common.{ℕ, suc, ◌+◌, ◌-◌, ◌*◌, ◌/◌, ◌^◌, ◌<◌, ◌≡◌, ◌∙◌, refl, bit_and, bit_or, arith}
use plo.Common.Bits.{u32, bit_and_ones, bit_and_field, bit_or_comm, bit_or_sum}
use plo.Devs.{Devs, found, iter_from, iter_next, slot, majors, minors}

-- The state in which the slot of these numbers is the next.
abbrev ctx_at : ℕ → ℕ → ℕ
ctx_at major minor = major * 2 ^ 16 + minor

high_of :
    (major minor : ℕ)
    → major < 2 ^ 16
    → minor < 2 ^ 16
    → bit_and (ctx_at major minor / 2 ^ 16) 0xffff ≡ major
high_of major minor h u = omega (arith, bit_and_ones 16 (ctx_at major minor / 2 ^ 16))

low_of : (major minor : ℕ) → minor < 2 ^ 16 → bit_and (ctx_at major minor) 0xffff ≡ minor
low_of major minor u = omega (arith, bit_and_ones 16 (ctx_at major minor))

-- The new state: the upper half as it is, and the next minor number.
ctx_suc :
    (major minor minor' : ℕ)
    → major < majors
    → minor < 2 ^ 16
    → minor' < minors
    → u32 (bit_and (ctx_at major minor) 0xffff_0000 + suc minor') ≡ ctx_at major (suc minor')
ctx_suc major minor minor' h u w = omega (arith, bit_and_field 16 16 (ctx_at major minor))

iter_from-found :
    {S : Type 0} (devs : Devs S) (n major minor₀ minor : ℕ)
    → major < majors
    → minor₀ < 2 ^ 16
    → minor < minors
    → iter_from devs (suc n) major minor (ctx_at major minor₀)
      ≡ found (slot devs major minor) major minor (ctx_at major (suc minor))
unfolding iter_from
iter_from-found devs n major minor₀ minor h u w = ground (arith, ctx_suc major minor₀ minor h u w)

-- `iter_next` starts at the numbers that its state holds.
iter_next_lem :
    {S : Type 0} (devs : Devs S) (major minor : ℕ)
    → major < majors
    → minor < 2 ^ 16
    → iter_next devs (ctx_at major minor)
      ≡ iter_from devs (suc (10 - major)) major minor (ctx_at major minor)
unfolding iter_next
iter_next_lem devs major minor h u =
    let fuel : majors - major ≡ suc (10 - major) = omega arith in
    rw (high_of major minor (omega arith) u, low_of major minor u, fuel) refl

-- In the state for a slot of the table, `devs_iterNext` returns the slot with its numbers, and
-- the next state is the one for the slot behind it in its row.
pub iter_next-found :
    {S : Type 0} (devs : Devs S) (major minor : ℕ)
    → major < majors
    → minor < minors
    → iter_next devs (ctx_at major minor)
      ≡ found (slot devs major minor) major minor (ctx_at major (suc minor))
iter_next-found devs major minor h u =
    iter_next_lem devs major minor h (omega arith)
    ∙ iter_from-found devs (10 - major) major minor minor h (omega arith) u

-- In the state behind a row's last slot, `devs_iterNext` returns the first slot of the next row, if
-- there is one.
pub iter_next-row :
    {S : Type 0} (devs : Devs S) (major : ℕ)
    → suc major < majors
    → iter_next devs (ctx_at major minors)
      ≡ found (slot devs (suc major) 0) (suc major) 0 (ctx_at (suc major) 1)
unfolding iter_from
iter_next-row devs major h =
    let next : bit_or (bit_and (ctx_at major minors) 0xffff) (suc major * 2 ^ 16)
        ≡ ctx_at (suc major) 16 =
      rw (low_of major 16 (omega arith), bit_or_comm 16 (suc major * 2 ^ 16))
        (bit_or_sum 16 (suc major) 16 (omega arith)) in
    let fuel : 10 - major ≡ suc (9 - major) = omega arith in
    iter_next_lem devs major 16 (omega arith) (omega arith)
    ∙ rw (fuel, next)
        (iter_from-found devs (9 - major) (suc major) 16 0 h (omega arith) (omega arith))
