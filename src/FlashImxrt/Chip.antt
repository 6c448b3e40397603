-- ===== src/FlashImxrt/Chip.antt =====
-- What devices/flash-imxrt/flashdrv.c relies on in a NOR flash: an erased sector is all ones, a page
-- of ones takes what is programmed into it, and a read gives what is there.
use plo.Common.{
  ℕ, ◌+◌, ◌-◌, ◌*◌, ◌<◌, ◌≡◌, Bool, true, ◌&&◌, length, get_or, ltb, leb, if◌then◌else◌,
}
use plo.Common.CString.{Bytes}
use plo.Common.Result.{ok, err}
use plo.FlashImxrt.{NorOps, erased_state}

-- Whether `i` is one of the `n` addresses from `addr` on.
abbrev pub inside : ℕ → ℕ → ℕ → Bool
inside addr n i = leb addr i && ltb i (addr + n)

-- The laws hold for calls that succeed; `cell f i` is the byte of the flash at `i`. A sector has
-- `sector` bytes and a page `page` bytes.
pub record IsNor {F : Type 0} (ops : NorOps F) (cell : F → ℕ → ℕ) (sector page : ℕ) : Type 0 where
  pub erase :
      (q timeout n : ℕ) (f f' : F)
      → ops.erase_sector (q * sector) timeout f ≡ (ok n, f')
      → (i : ℕ) → cell f' i ≡ (if inside (q * sector) sector i then erased_state else cell f i)
  pub program :
      (q timeout n : ℕ) (bytes : Bytes) (f f' : F)
      → length bytes ≡ page
      → ((i : ℕ) → inside (q * page) page i ≡ true → cell f i ≡ erased_state)
      → ops.page_program (q * page) bytes timeout f ≡ (ok n, f')
      → (i : ℕ)
      → cell f' i ≡ (if inside (q * page) page i then get_or bytes (i - q * page) 0 else cell f i)
  pub read :
      (addr size timeout n : ℕ) (bytes : Bytes) (f f' : F)
      → ops.read_data addr size timeout f ≡ ((ok n, bytes), f')
      → (length bytes ≡ size)
        × ((i : ℕ) → i < size → get_or bytes i 0 ≡ cell f (addr + i))
        × ((i : ℕ) → cell f' i ≡ cell f i)

-- An error of the chip.
pub data Fault {F : Type 0} (ops : NorOps F) (e : ℕ) : Type 0 where
  erase_fails :
      (addr timeout : ℕ) (f f' : F) → ops.erase_sector addr timeout f ≡ (err e, f') → Fault ops e
  program_fails :
      (addr timeout : ℕ) (bytes : Bytes) (f f' : F)
      → ops.page_program addr bytes timeout f ≡ (err e, f')
      → Fault ops e
  read_fails :
      (addr size timeout : ℕ) (bytes : Bytes) (f f' : F)
      → ops.read_data addr size timeout f ≡ ((err e, bytes), f')
      → Fault ops e
