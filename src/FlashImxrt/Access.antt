-- ===== src/FlashImxrt/Access.antt =====
-- devices/flash-imxrt/flashdrv.c: the operations of the driver.
use plo.Common.{
  ℕ, zero, suc, ◌+◌, ◌-◌, ◌/◌, min, Bool, true, false, not, ◌&&◌, Option, none, some, List, [], ◌∷◌,
  length, take, drop, set, get_elem?, ltb, leb, ◌==◌, if◌then◌else◌, bit_and,
}
use plo.Common.Bits.{u32}
use plo.Common.CString.{Bytes}
use plo.Common.Result.{Result, ok, err, next, next?, eio, enxio, einval, enosys}
use plo.Ramdrv.{copy_to, splice, is_mappable, is_not_mappable}
use plo.FlashImxrt.{
  NorDevice, NorOps, no_addr, caps_die2, caps_die4, sector_id, sector_address, sync_device,
}

-- What `nor_readData` stores, as the result of a read.
abbrev pub stored_bytes : {F : Type 0} → (Result ℕ × Bytes) × F → Result Bytes × F
stored_bytes ((ok n, bs), f) = (ok (take n bs), f)
stored_bytes ((err e, bs), f) = (err e, f)

-- The result of an operation that only changes the flash.
abbrev pub with_flash :
    {F A : Type 0} → NorDevice F → Result A × F → Option (Result A × NorDevice F)
with_flash dev (res, f) = some (res, record dev { flash = f })

module _ {F : Type 0} where
  -- `minorToDevice`, and the test that each operation starts with. `FLASH_NO` is the number of
  -- devices.
  unfoldable pub on_device :
      {A : Type 0}
      → ℕ
      → (NorDevice F → Option (Result A × NorDevice F))
      → List (NorDevice F)
      → Option (Result A × List (NorDevice F))
  on_device minor f devs = elim (get_elem? devs minor) [
    | none ↦ some (err enxio, devs)
    | some dev ↦
        if not dev.active
        then some (err enxio, devs)
        else elim (f dev) [ none ↦ none | some (res, dev') ↦ some (res, set devs minor dev') ]
  ]

  -- The commands `DEV_CONTROL_GETPROP_TOTALSZ` and `DEV_CONTROL_GETPROP_BLOCKSZ`: what they store
  -- is the result.
  unfoldable pub control_device : ℕ → NorDevice F → Option (Result ℕ × NorDevice F)
  control_device cmd dev =
      if cmd == 3
      then some (ok dev.flash_sz, dev)
      else if cmd == 4
      then some (ok dev.nor.sector_sz, dev)
      else some (err enosys, dev)

  -- `flashdrv_map`. The address that it stores is `ahb_addr` in each case.
  unfoldable pub map_device : ℕ → ℕ → ℕ → ℕ → ℕ → ℕ → NorDevice F → Option (Result ℕ × NorDevice F)
  map_device addr sz mode memaddr memsz memmode dev =
      if ltb dev.flash_sz (u32 (addr + sz))
      then some (err einval, dev)
      else if leb dev.ahb_addr memaddr
          && leb (u32 (memaddr + memsz)) (u32 (dev.ahb_addr + dev.flash_sz))
      then some (ok is_mappable, dev)
      else if not (bit_and mode memmode == mode)
      then some (err einval, dev)
      else some (ok is_not_mappable, dev)

  abbrev pub invalidate : NorDevice F → NorDevice F
  invalidate dev = record dev { sector_prev_addr = no_addr; sector_sync_addr = no_addr }

  -- What the reading of a sector leaves in the buffer.
  abbrev pub refilled : NorDevice F → ℕ → (Result ℕ × Bytes) × F → Option (Result ℕ × NorDevice F)
  refilled dev dst ((err e, bs), f) =
      some (err e, record dev { flash = f; sector_buf = copy_to dev.sector_buf bs })
  refilled dev dst ((ok n, bs), f) = some (
    ok n,
    record dev { flash = f; sector_buf = copy_to dev.sector_buf bs; sector_prev_addr = dst },
  )

  abbrev pub sector_ofs : NorDevice F → ℕ → ℕ
  sector_ofs dev dst = bit_and dst (dev.nor.sector_sz - 1)

  abbrev pub chunk_sz : NorDevice F → ℕ → Bytes → ℕ
  chunk_sz dev dst src = min (length src) (dev.nor.sector_sz - sector_ofs dev dst)

  abbrev pub put_chunk : NorDevice F → ℕ → Bytes → NorDevice F
  put_chunk dev dst src = record dev {
    sector_buf = splice dev.sector_buf (sector_ofs dev dst) (take (chunk_sz dev dst src) src);
  }

  abbrev pub die_count : NorDevice F → ℕ
  die_count dev =
      if not (bit_and dev.nor.cap_flags caps_die4 == 0)
      then 4
      else if not (bit_and dev.nor.cap_flags caps_die2 == 0)
      then 2
      else 1

  abbrev pub erased : NorDevice F → Option (Result ℕ × F) → Option (Result ℕ × NorDevice F)
  erased dev none = none
  erased dev (some r) = with_flash dev r

  abbrev pub chip_erased : NorDevice F → Result ℕ × F → Option (Result ℕ × NorDevice F)
  chip_erased dev (err e, f) = with_flash dev (err e, f)
  chip_erased dev (ok _, f) = with_flash dev (ok dev.flash_sz, f)

module _ {F : Type 0} (ops : NorOps F) where
  -- The second half of `bufferSync`, behind its call of `flashdrv_sync`.
  unfoldable pub change_sector : ℕ → Bool → ℕ → NorDevice F → Option (Result ℕ × NorDevice F)
  unfolding sector_address
  change_sector dst is_last res dev =
      let dev' = if leb dev.nor.total_sz dst then invalidate dev else dev in
      if is_last
      then some (ok res, dev')
      else if ltb dev.nor.total_sz (u32 (dst + dev.nor.sector_sz))
      then some (err eio, dev')
      else refilled dev' dst
          (ops.read_data (sector_address dev dst) dev.nor.sector_sz dev.timeout dev'.flash)

  -- `bufferSync`
  unfoldable pub buffer_sync : ℕ → Bool → NorDevice F → Option (Result ℕ × NorDevice F)
  unfolding sector_id sync_device change_sector
  buffer_sync dst is_last dev =
      if sector_id dev dst == sector_id dev dev.sector_prev_addr
      then some (ok 0, dev)
      else next? (change_sector dst is_last) (sync_device ops dev)

  -- The loop of `flashdrv_write`; its result is the address behind the last byte.
  unfoldable pub write_loop : ℕ → ℕ → Bytes → NorDevice F → Option (Result ℕ × NorDevice F)
  unfolding buffer_sync
  write_loop zero dst src dev = none
  write_loop (suc fuel) dst [] dev = some (ok dst, dev)
  write_loop (suc fuel) dst (b ∷ src) dev =
      next?
        (λ (res : ℕ) dev'.
          write_loop fuel (u32 (dst + chunk_sz dev' dst (b ∷ src)))
            (drop (chunk_sz dev' dst (b ∷ src)) (b ∷ src)) (put_chunk dev' dst (b ∷ src)))
        (buffer_sync dst false dev)

  -- `flashdrv_write`, for a pointer to data that is not NULL. Each turn writes a byte at least.
  unfoldable pub write_device : ℕ → Bytes → NorDevice F → Option (Result ℕ × NorDevice F)
  unfolding write_loop buffer_sync
  write_device dst src dev =
      if ltb dev.flash_sz (u32 (dst + length src))
      then some (err einval, dev)
      else if length src == 0
      then some (ok 0, dev)
      else next?
          (λ dst' dev'.
            next? (λ (_ : ℕ) dev''. some (ok (length src), dev'')) (buffer_sync dst' true dev'))
          (write_loop (suc (length src)) dst src dev)

  -- `flashdrv_read`
  unfoldable pub read_device : ℕ → ℕ → ℕ → NorDevice F → Option (Result Bytes × NorDevice F)
  read_device addr size timeout dev =
      if ltb dev.flash_sz (u32 (addr + size))
      then some (err einval, dev)
      else if size == 0
      then some (ok [], dev)
      else with_flash dev (
          stored_bytes
            (ops.read_data addr size (if timeout == 0 then dev.timeout else timeout) dev.flash))

  -- The loop of `flashdrv_erase`
  unfoldable pub erase_loop : NorDevice F → ℕ → ℕ → ℕ → ℕ → F → Option (Result ℕ × F)
  erase_loop dev zero addr end len f = none
  erase_loop dev (suc fuel) addr end len f = elim (ltb addr end) [
    | false ↦ some (ok len, f)
    | true ↦
        next
          (λ _.
            erase_loop dev fuel (u32 (addr + dev.nor.sector_sz)) end
              (u32 (len + dev.nor.sector_sz)))
          (ops.erase_sector addr dev.timeout f)
  ]

  -- `flashdrv_erase`. The loop goes through the sectors from the first to the last, of which there
  -- are no more than bytes.
  unfoldable pub erase_device : ℕ → ℕ → NorDevice F → Option (Result ℕ × NorDevice F)
  unfolding erase_loop sector_address
  erase_device addr len dev =
      if ltb dev.flash_sz (u32 (addr + len)) && not (len == no_addr)
      then some (err einval, dev)
      else if len == 0
      then some (ok 0, dev)
      else if len == no_addr
      then chip_erased (invalidate dev) (
          ops.erase_chip_die dev.nor.cap_flags (die_count dev) (dev.flash_sz / die_count dev)
            dev.timeout dev.flash)
      else let end = sector_address dev (u32 (addr + len + (dev.nor.sector_sz - 1))) in
        erased (invalidate dev) (erase_loop dev (suc end) (sector_address dev addr) end 0 dev.flash)

  -- `flashdrv_done`
  unfoldable pub done_device : NorDevice F → Option (Result ℕ × NorDevice F)
  unfolding sync_device
  done_device dev =
      next? (λ (_ : ℕ) dev'. with_flash dev' (ops.deinit dev'.flash)) (sync_device ops dev)
