-- ===== src/FlashImxrt/Contents.antt =====
-- Bytes put into a buffer, and buffers that are all ones.
use plo.Common.{
  get_or-take, ℕ, suc, ◌+◌, ◌-◌, ◌≤◌, ◌<◌, ◌≡◌, refl, ap, sym, ◌∙◌, arith, true, false, Bool-cases,
  [], ◌∷◌, inl, inr, length, take, get_or, ltb, length-take,
}
use plo.Common.CString.{Bytes}
use plo.FlashImxrt.{erased_state, all_ones}
use plo.Ramdrv.{splice}
use plo.Ramdrv.Stored.{Outside, splice-length, splice-out, splice-get_or}
use plo.FlashImxrt.Pages.{over, all_ones-get_or}
use plo.FlashImxrt.Chip.{inside}

-- A buffer of ones is ones at each place.
pub get_or-all_ones :
    (bytes : Bytes)
    → ((i : ℕ) → i < length bytes → get_or bytes i 0 ≡ erased_state)
    → all_ones bytes ≡ true
unfolding all_ones
get_or-all_ones [] h = refl
get_or-all_ones (b ∷ bytes) h =
    let rest = get_or-all_ones bytes (λ i lt. h (suc i) (omega arith)) in
    ground (arith, h 0 (omega arith))

-- A buffer into which a byte has been put that is not all ones is not all ones.
pub mixed-splice :
    (n : ℕ) (mem : Bytes) (offs : ℕ) (buff : Bytes)
    → offs + length buff ≤ n
    → n ≤ length mem
    → all_ones buff ≡ false
    → all_ones (take n (splice mem offs buff)) ≡ false
mixed-splice n mem offs buff le room mixed =
    elim (Bool-cases (all_ones (take n (splice mem offs buff)))) [
      | inr e ↦ e
      | inl ones ↦
          let buff_ones = get_or-all_ones buff (λ i lt.
            sym (splice-get_or mem offs buff i lt (omega arith))
            ∙ sym (get_or-take n (offs + i) (splice mem offs buff) (omega arith))
            ∙ all_ones-get_or (take n (splice mem offs buff)) (offs + i) ones (
                omega
                  (arith, length-take n (splice mem offs buff), splice-length mem offs buff))) in
          ground arith
    ]

-- Bytes put into the buffer are put over the contents.
pub over-splice :
    (buf : Bytes) (sector ofs n : ℕ) (src : Bytes) (base : ℕ → ℕ) (i : ℕ)
    → ofs + length src ≤ n
    → n ≤ length buf
    → over (splice buf ofs src) sector n base i
      ≡ over src (sector + ofs) (length src) (over buf sector n base) i
over-splice buf sector ofs n src base i h room =
    elim (Bool-cases (inside (sector + ofs) (length src) i)) [
      | inl new ↦
          let within : inside sector n i ≡ true = ground arith in
          let at = i - (sector + ofs) in
          rw (new, within)
            (ap (λ t. get_or (splice buf ofs src) t 0) {x = i - sector} {y = ofs + at}
                (ground arith)
              ∙ splice-get_or buf ofs src at (ground arith) (omega arith))
      | inr old ↦ elim (Bool-cases (inside sector n i)) [
        | inl within ↦ rw (old, within) (splice-out buf ofs src (i - sector) (elsewhere old within))
        | inr without ↦ rw (old, without) refl
      ]
    ]
  where
    elsewhere :
        inside (sector + ofs) (length src) i ≡ false
        → inside sector n i ≡ true
        → Outside ofs (length src) (i - sector)
    elsewhere old within = elim (Bool-cases (ltb (i - sector) ofs)) [
      | inl before ↦ inl (ground arith)
      | inr behind ↦ inr (ground arith)
    ]
