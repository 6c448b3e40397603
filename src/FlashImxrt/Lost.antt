-- ===== src/FlashImxrt/Lost.antt =====
-- devices/flash-imxrt/flashdrv.c: writes that `flashdrv_sync` does not bring to the flash.
use plo.Common.{
  get_or-drop, get_or-take, ℕ, zero, suc, ◌+◌, ◌-◌, ◌*◌, ◌/◌, ◌%◌, ◌^◌, min, ◌≤◌, ◌<◌, ◌≡◌, ◌≢◌,
  refl, sym, ◌∙◌, arith, true, false, some, length, take-all, drop-all, take, drop, ltb, ◌==◌,
  bit_and, length-take,
}
use plo.Common.Bits.{u32}
use plo.Common.CString.{Bytes}
use plo.Common.Result.{ok, next?}
use plo.FlashImxrt.{
  NorDevice, NorOps, no_addr, all_ones, page_at, sector_id, sector_address, program_pages,
  erase_old, sync_device,
}
use plo.Ramdrv.{splice}
use plo.FlashImxrt.Pages.{all_ones-get_or}
use plo.FlashImxrt.Sizes.{IsSized, sector-small, fewer}
use plo.FlashImxrt.Stored.{write_loop-turn, sector_ofs-mod, same_sector}
use plo.FlashImxrt.Contents.{get_or-all_ones}
use plo.FlashImxrt.Access.{write_loop, write_device, buffer_sync}

module _ {F : Type 0} (ops : NorOps F) (dev : NorDevice F) where
  -- A page of a buffer of ones is one of ones.
  page-all_ones :
      (ofs : ℕ)
      → ofs + dev.nor.page_sz ≤ dev.nor.sector_sz
      → dev.nor.sector_sz ≤ length dev.sector_buf
      → all_ones (take dev.nor.sector_sz dev.sector_buf) ≡ true
      → all_ones (page_at dev ofs) ≡ true
  page-all_ones ofs le room ones = get_or-all_ones (page_at dev ofs) (λ i h.
      let inner : i < dev.nor.page_sz =
        omega (arith, length-take dev.nor.page_sz (drop ofs dev.sector_buf)) in
      get_or-take dev.nor.page_sz i (drop ofs dev.sector_buf) inner
      ∙ get_or-drop ofs i dev.sector_buf
      ∙ sym (get_or-take dev.nor.sector_sz (ofs + i) dev.sector_buf (omega arith))
      ∙ all_ones-get_or (take dev.nor.sector_sz dev.sector_buf) (ofs + i) ones
          (omega (arith, length-take dev.nor.sector_sz dev.sector_buf)))

  program_pages-all_ones :
      (left fuel sector ofs : ℕ) (f : F)
      → left < fuel
      → ofs + left * dev.nor.page_sz ≡ dev.nor.sector_sz
      → 0 < dev.nor.page_sz
      → dev.nor.sector_sz ≤ length dev.sector_buf
      → dev.nor.sector_sz < 2 ^ 32
      → all_ones (take dev.nor.sector_sz dev.sector_buf) ≡ true
      → program_pages ops dev sector fuel ofs f ≡ some (ok 0, f)
  unfolding program_pages
  program_pages-all_ones left zero sector ofs f lt e pos room small ones = absurd (omega arith)
  program_pages-all_ones zero (suc fuel) sector ofs f lt e pos room small ones =
      let end : ltb ofs dev.nor.sector_sz ≡ false = ground arith in rw (end, program_pages) refl
  program_pages-all_ones (suc left) (suc fuel) sector ofs f lt e pos room small ones =
      let more : ofs + dev.nor.page_sz + left * dev.nor.page_sz ≡ dev.nor.sector_sz = grind arith in
      let before : ltb ofs dev.nor.sector_sz ≡ true = ground arith in
      let behind : u32 (ofs + dev.nor.page_sz) ≡ ofs + dev.nor.page_sz = omega arith in
      let skip = page-all_ones ofs (omega arith) room ones in
      rw (before, skip, behind, program_pages)
        (program_pages-all_ones left fuel sector (ofs + dev.nor.page_sz) f (omega arith) more pos
          room small ones)

  -- A sector that is overwritten with ones is not erased: `flashdrv_sync` reports success and marks
  -- the buffer as written, with no call of the chip, whatever the sector holds.
  pub sync_device-all_ones :
      IsSized dev
      → dev.sector_prev_addr ≢ no_addr
      → dev.sector_prev_addr ≢ dev.sector_sync_addr
      → all_ones (take dev.nor.sector_sz dev.sector_buf) ≡ true
      → sync_device ops dev
        ≡ some (ok dev.nor.sector_sz, record dev { sector_sync_addr = dev.sector_prev_addr })
  unfolding sync_device erase_old
  sync_device-all_ones s used fresh ones =
      let cached : (dev.sector_prev_addr == no_addr) ≡ false = ground arith in
      let dirty : (dev.sector_prev_addr == dev.sector_sync_addr) ≡ false = ground arith in
      let skip =
        program_pages-all_ones s.pages (suc dev.nor.sector_sz)
          (sector_address dev dev.sector_prev_addr) 0 dev.flash
          (fewer s.pages dev.nor.page_sz _ s.sector-pages s.page) (omega (arith, s.sector-pages))
          s.page s.buffer (sector-small dev s) ones in
      rw (cached, dirty, ones, skip) refl

  -- A write of at least one byte to a part of the sector that was marked as written last, which ends
  -- before the sector does: the call of `flashdrv_sync` behind it reports success and leaves the flash
  -- as it is. The sectors are powers of two, and the flash ends below the address of all ones.
  pub write_device_lost :
      (dst : ℕ) (src : Bytes)
      → IsSized dev
      → dev.sector_prev_addr ≢ no_addr
      → dev.sector_prev_addr ≡ dev.sector_sync_addr
      → dst / dev.nor.sector_sz ≡ dev.sector_prev_addr / dev.nor.sector_sz
      → 0 < length src
      → dst % dev.nor.sector_sz + length src < dev.nor.sector_sz
      → dst + length src ≤ dev.flash_sz
      → dev.flash_sz < no_addr
      → next? (λ (_ : ℕ) dev'. sync_device ops dev') (write_device ops dst src dev)
        ≡ some
            (ok 0, record dev { sector_buf = splice dev.sector_buf (dst % dev.nor.sector_sz) src })
  unfolding write_device write_loop buffer_sync sync_device sector_id
  write_device_lost dst src s used marked same nonempty inner size small =
      let within : ltb dev.flash_sz (u32 (dst + length src)) ≡ false = ground arith in
      let more : (length src == 0) ≡ false = ground arith in
      let hit : (dst / dev.nor.sector_sz == dev.sector_prev_addr / dev.nor.sector_sz) ≡ true =
        ground arith in
      let still : ((dst + length src) / dev.nor.sector_sz
            == dev.sector_prev_addr / dev.nor.sector_sz)
          ≡ true =
        ground (arith, same_sector dst dev.nor.sector_sz (length src) inner) in
      let ofs : bit_and dst (dev.nor.sector_sz - 1) ≡ dst % dev.nor.sector_sz =
        sector_ofs-mod dev dst s in
      let whole : min (length src) (dev.nor.sector_sz - dst % dev.nor.sector_sz) ≡ length src =
        omega arith in
      let behind : u32 (dst + length src) ≡ dst + length src = omega arith in
      let cached : (dev.sector_prev_addr == no_addr) ≡ false = ground arith in
      let synced : (dev.sector_prev_addr == dev.sector_sync_addr) ≡ true = ground arith in
      rw (within, more)
        (write_loop-turn ops dev dst src nonempty
          (λ out.
            next? (λ (_ : ℕ) dev'. sync_device ops dev')
              (next?
                (λ dst' dev'.
                  next? (λ (_ : ℕ) dev''. some (ok (length src), dev''))
                    (buffer_sync ops dst' true dev'))
                out)
            ≡ some (
              ok 0,
              record dev { sector_buf = splice dev.sector_buf (dst % dev.nor.sector_sz) src },
            ))
          (λ fuel.
            rw
              (
                hit,
                ofs,
                whole,
                take-all (length src) src (omega arith),
                drop-all (length src) src (omega arith),
                behind,
                still,
                cached,
                synced,
              )
              refl))
