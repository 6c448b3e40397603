-- ===== src/Ramdrv/Stored.antt =====
-- devices/ram-storage/ramdrv.c: what is written is read back, and nothing else changes.
use plo.Common.{
  ℕ, zero, suc, ◌+◌, ◌≤◌, ◌<◌, ◌≡◌, ◌⊎◌, inl, inr, refl, ap, ◌∙◌, arith, Bool-cases, true, false,
  some, [], ◌∷◌, length, take, drop, get_or, ltb,
}
use plo.Common.CString.{Bytes}
use plo.Common.Result.{Result, ok, err, einval}
use plo.Devs.{Devs, get, dev_read, dev_write, get_ops}
use plo.Ramdrv.{copy_to, splice, is_valid_minor, is_valid_address, ram_read, ram_write, ram_device}

-- The bytes that have been put in are found there.
copy_to-in :
    (mem buff : Bytes) → length buff ≤ length mem → take (length buff) (copy_to mem buff) ≡ buff
copy_to-in mem [] h = refl
copy_to-in [] (b ∷ buff) h = absurd (omega arith)
copy_to-in (m ∷ mem) (b ∷ buff) h = ap (λ r. b ∷ r) (copy_to-in mem buff (omega arith))

pub splice-in :
    (mem : Bytes) (offs : ℕ) (buff : Bytes)
    → offs + length buff ≤ length mem
    → take (length buff) (drop offs (splice mem offs buff)) ≡ buff
splice-in mem zero buff h = copy_to-in mem buff (omega arith)
splice-in [] (suc offs) buff h = absurd (omega arith)
splice-in (x ∷ mem) (suc offs) buff h = splice-in mem offs buff (omega arith)

pub copy_to-get_or :
    (mem buff : Bytes) (i : ℕ)
    → i < length buff
    → length buff ≤ length mem
    → get_or (copy_to mem buff) i 0 ≡ get_or buff i 0
copy_to-get_or mem [] i h le = absurd (omega arith)
copy_to-get_or [] (b ∷ buff) i h le = absurd (omega arith)
copy_to-get_or (m ∷ mem) (b ∷ buff) zero h le = refl
copy_to-get_or (m ∷ mem) (b ∷ buff) (suc i) h le =
    copy_to-get_or mem buff i (omega arith) (omega arith)

-- The bytes that have been put in, one by one.
pub splice-get_or :
    (mem : Bytes) (offs : ℕ) (buff : Bytes) (i : ℕ)
    → i < length buff
    → offs + length buff ≤ length mem
    → get_or (splice mem offs buff) (offs + i) 0 ≡ get_or buff i 0
splice-get_or mem zero buff i h le =
    ap (λ t. get_or (copy_to mem buff) t 0) {x = 0 + i} {y = i} (omega arith)
    ∙ copy_to-get_or mem buff i h (omega arith)
splice-get_or [] (suc offs) buff i h le = absurd (omega arith)
splice-get_or (m ∷ mem) (suc offs) buff i h le =
    ap (λ t. get_or (m ∷ splice mem offs buff) t 0) {x = suc offs + i} {y = suc (offs + i)}
      (omega arith)
    ∙ splice-get_or mem offs buff i h (omega arith)

-- Each other byte is as before.
copy_to-out :
    (mem buff : Bytes) (i : ℕ) → length buff ≤ i → get_or (copy_to mem buff) i 0 ≡ get_or mem i 0
copy_to-out [] buff i h = refl
copy_to-out (m ∷ mem) [] i h = refl
copy_to-out (m ∷ mem) (b ∷ buff) zero h = absurd (omega arith)
copy_to-out (m ∷ mem) (b ∷ buff) (suc i) h = copy_to-out mem buff i (omega arith)

-- A place before the bytes that are written or behind them.
abbrev pub Outside : ℕ → ℕ → ℕ → Type 0
Outside offs n i = (i < offs) ⊎ (offs + n ≤ i)

pub splice-out :
    (mem : Bytes) (offs : ℕ) (buff : Bytes) (i : ℕ)
    → Outside offs (length buff) i
    → get_or (splice mem offs buff) i 0 ≡ get_or mem i 0
splice-out mem zero buff i (inl h) = absurd (omega arith)
splice-out mem zero buff i (inr h) = copy_to-out mem buff i (omega arith)
splice-out [] (suc offs) buff i o = refl
splice-out (x ∷ mem) (suc offs) buff zero o = refl
splice-out (x ∷ mem) (suc offs) buff (suc i) (inl h) =
    splice-out mem offs buff i (inl (omega arith))
splice-out (x ∷ mem) (suc offs) buff (suc i) (inr h) =
    splice-out mem offs buff i (inr (omega arith))

pub copy_to-length : (mem buff : Bytes) → length (copy_to mem buff) ≡ length mem
copy_to-length [] buff = refl
copy_to-length (m ∷ mem) [] = refl
copy_to-length (m ∷ mem) (b ∷ buff) = ap suc (copy_to-length mem buff)

pub splice-length :
    (mem : Bytes) (offs : ℕ) (buff : Bytes) → length (splice mem offs buff) ≡ length mem
splice-length mem zero buff = copy_to-length mem buff
splice-length [] (suc offs) buff = refl
splice-length (x ∷ mem) (suc offs) buff = ap suc (splice-length mem offs buff)

-- What a write to the bank of a device comes to: the bytes are read back and no others have changed,
-- or the bank is as it was.
pub data Written (devs : Devs Bytes) (major size : ℕ) (mem : Bytes) (offs : ℕ) (buff : Bytes)
    (out : Result ℕ × Bytes) : Type 0 where
  stored :
      offs < size
      → offs + length buff ≤ size
      → out.0 ≡ ok (length buff)
      → length out.1 ≡ size
      → ((timeout : ℕ) → dev_read devs major 0 offs (length buff) timeout out.1 ≡ (ok buff, out.1))
      → ((i : ℕ) → Outside offs (length buff) i → get_or out.1 i 0 ≡ get_or mem i 0)
      → Written devs major size mem offs buff out
  refused :
      (size ≤ offs) ⊎ (size < offs + length buff)
      → out ≡ (err einval, mem)
      → Written devs major size mem offs buff out

module _ (ram_addr size : ℕ) where
  is_valid_address-range :
      (offs n : ℕ)
      → is_valid_address ram_addr size offs n ≡ true
      → (offs < size) × (offs + n ≤ size)
  unfolding is_valid_address
  is_valid_address-range offs n h = (ground arith, ground arith)

  is_valid_address-refused :
      (offs n : ℕ)
      → is_valid_address ram_addr size offs n ≡ false
      → (size ≤ offs) ⊎ (size < offs + n)
  unfolding is_valid_address
  is_valid_address-refused offs n h = elim (Bool-cases (ltb offs size)) [
    | inl inside ↦ inr (ground arith)
    | inr beyond ↦ inl (ground arith)
  ]

  -- A write through `devs_write` to the only device of the driver, at its place in the table, either
  -- stores the bytes, lets `devs_read` of the same range give them back, and changes no others, or
  -- is refused since it starts at or behind the end of the bank or goes beyond it, and then changes
  -- nothing. The bank holds as many bytes as its size says.
  pub dev_write-Written :
      (devs : Devs Bytes) (major offs : ℕ) (buff mem : Bytes)
      → get devs major 0 ≡ some (ram_device ram_addr size)
      → length mem ≡ size
      → Written devs major size mem offs buff (dev_write devs major 0 offs buff mem)
  unfolding dev_write dev_read get_ops ram_device ram_write ram_read is_valid_minor
  dev_write-Written devs major offs buff mem d h =
      elim (Bool-cases (is_valid_address ram_addr size offs (length buff))) [
        | inl valid ↦
            let range = is_valid_address-range offs (length buff) valid in
            rw (d, valid, dev_write)
              (stored range.0 range.1 refl (splice-length mem offs buff ∙ h)
                (λ timeout.
                  rw (d, valid, dev_read)
                    (ap (λ r. (ok r, splice mem offs buff))
                      (splice-in mem offs buff (omega (arith, range.1)))))
                (splice-out mem offs buff))
        | inr wrong ↦
            rw (d, wrong, dev_write)
              (refused (is_valid_address-refused offs (length buff) wrong) refl)
      ]
