-- ===== src/FlashImxrt.antt =====
-- devices/flash-imxrt/flashdrv.c: the driver of a NOR flash, which collects what is written to one
-- sector in a buffer. `F` is the state of the flash and of its controller. Addresses and sizes have
-- 32 bits.
pub mod Access
pub mod Chip
pub mod Sizes
pub mod Pages
pub mod Sync
pub mod Load
pub mod Contents
pub mod Stored
pub mod Lost
pub mod Erased
use plo.Common.{
  ℕ, zero, suc, ◌+◌, ◌-◌, ◌*◌, ◌/◌, ◌%◌, ◌^◌, min, Bool, true, false, not, ◌&&◌, ◌||◌, Option, none,
  some, List, [], ◌∷◌, length, take, drop, set, get_elem?, ltb, leb, ◌==◌, if◌then◌else◌, bit_and,
}
use plo.Common.Bits.{u32}
use plo.Common.CString.{Bytes}
use plo.Common.Result.{Result, ok, err, next, next?, eio, enxio, einval, enosys}
use plo.Ramdrv.{copy_to, splice, is_mappable, is_not_mappable}

-- `(addr_t)-1`
abbrev pub no_addr : ℕ
no_addr = 0xffff_ffff

-- `NOR_ERASED_STATE`
abbrev pub erased_state : ℕ
erased_state = 0xff

-- `NOR_CAPS_DIE2` and `NOR_CAPS_DIE4`
abbrev pub caps_die2 : ℕ
caps_die2 = 0x1000

abbrev pub caps_die4 : ℕ
caps_die4 = 0x2000

-- `struct nor_info`, as far as the driver reads it.
pub record NorInfo : Type 0 where
  pub total_sz : ℕ
  pub page_sz : ℕ
  pub sector_sz : ℕ
  pub cap_flags : ℕ

-- `struct nor_device`: `flash_sz` is `fspi.slFlashSz[port]`, and `ahb_addr` is `fspi.ahbAddr`.
pub record NorDevice (F : Type 0) : Type 0 where
  pub nor : NorInfo
  pub flash : F
  pub flash_sz : ℕ
  pub ahb_addr : ℕ
  pub active : Bool
  pub timeout : ℕ
  pub sector_prev_addr : ℕ
  pub sector_sync_addr : ℕ
  pub sector_buf : Bytes

-- The functions of nor/nor.c and fspi.c that the driver calls. The last argument of each before the
-- state is the timeout. What `nor_readData` stores is given beside its result, since an error may
-- come after a part of it.
pub record NorOps (F : Type 0) : Type 0 where
  pub erase_sector : ℕ → ℕ → F → Result ℕ × F
  pub erase_chip_die : ℕ → ℕ → ℕ → ℕ → F → Result ℕ × F
  pub page_program : ℕ → Bytes → ℕ → F → Result ℕ × F
  pub read_data : ℕ → ℕ → ℕ → F → (Result ℕ × Bytes) × F
  pub deinit : F → Result ℕ × F

-- The loops that look for a byte that is not erased.
unfoldable pub all_ones : Bytes → Bool
all_ones [] = true
all_ones (b ∷ bs) = let rest = all_ones bs in if b == erased_state then rest else false

module _ {F : Type 0} where
  unfoldable pub sector_id : NorDevice F → ℕ → ℕ
  sector_id dev addr = addr / dev.nor.sector_sz

  unfoldable pub sector_address : NorDevice F → ℕ → ℕ
  sector_address dev addr = bit_and addr (2 ^ 32 - dev.nor.sector_sz)

  -- The bytes of a page in the buffer.
  abbrev pub page_at : NorDevice F → ℕ → Bytes
  page_at dev ofs = take dev.nor.page_sz (drop ofs dev.sector_buf)

  -- `minorToDevice`, and the test that each operation starts with. `FLASH_NO` is the number of
  -- devices.
  unfoldable pub on_device :
      {A : Type 0}
      → ℕ
      → (NorDevice F → Option (Result A × NorDevice F))
      → List (NorDevice F)
      → Option (Result A × List (NorDevice F))
  on_device minor f devs = elim (get_elem? devs minor) [
    | none ↦ some (err enxio, devs)
    | some dev ↦
        if not dev.active
        then some (err enxio, devs)
        else elim (f dev) [ none ↦ none | some (res, dev') ↦ some (res, set devs minor dev') ]
  ]

  -- What `flashdrv_sync` leaves behind: only a success marks the buffer as written.
  abbrev pub finish_sync : NorDevice F → Option (Result ℕ × F) → Option (Result ℕ × NorDevice F)
  finish_sync dev none = none
  finish_sync dev (some (err e, f)) = some (err e, record dev { flash = f })
  finish_sync dev (some (ok _, f)) =
      some (ok dev.nor.sector_sz, record dev { flash = f; sector_sync_addr = dev.sector_prev_addr })

module _ {F : Type 0} (ops : NorOps F) where
  -- The loop over the pages of the buffer: those with nothing but ones are as the erasing left them.
  unfoldable pub program_pages : NorDevice F → ℕ → ℕ → ℕ → F → Option (Result ℕ × F)
  unfolding all_ones
  program_pages dev sector zero ofs f = none
  program_pages dev sector (suc fuel) ofs f = elim (ltb ofs dev.nor.sector_sz) [
    | false ↦ some (ok 0, f)
    | true ↦ elim (all_ones (page_at dev ofs)) [
      | true ↦ program_pages dev sector fuel (u32 (ofs + dev.nor.page_sz)) f
      | false ↦
          next (λ _. program_pages dev sector fuel (u32 (ofs + dev.nor.page_sz)))
            (ops.page_program (u32 (sector + ofs)) (page_at dev ofs) dev.timeout f)
    ]
  ]

  -- The erasing of the sector, which a buffer of ones skips.
  unfoldable pub erase_old : NorDevice F → ℕ → Result ℕ × F
  unfolding all_ones
  erase_old dev sector =
      if all_ones (take dev.nor.sector_sz dev.sector_buf)
      then (ok 0, dev.flash)
      else ops.erase_sector sector dev.timeout dev.flash

  -- `flashdrv_sync`. Each page has a byte at least, so there are no more pages than bytes.
  unfoldable pub sync_device : NorDevice F → Option (Result ℕ × NorDevice F)
  unfolding sector_address program_pages erase_old
  sync_device dev =
      let sector = sector_address dev dev.sector_prev_addr in
      if dev.sector_prev_addr == no_addr
      then some (ok 0, dev)
      else if dev.sector_prev_addr == dev.sector_sync_addr
      then some (ok 0, dev)
      else finish_sync dev
          (next (λ _. program_pages dev sector (suc dev.nor.sector_sz) 0) (erase_old dev sector))
