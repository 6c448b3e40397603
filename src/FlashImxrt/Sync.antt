-- ===== src/FlashImxrt/Sync.antt =====
-- devices/flash-imxrt/flashdrv.c: the flash after `flashdrv_sync`.
use plo.Common.{
  ℕ, suc, ◌*◌, ◌/◌, ◌≡◌, ◌≢◌, refl, sym, ◌∙◌, arith, true, false, Option, some, take, ◌==◌,
  if◌then◌else◌,
}
use plo.Common.Result.{Result, ok, err, next}
use plo.FlashImxrt.{
  NorDevice, NorOps, no_addr, all_ones, finish_sync, program_pages, erase_old, sync_device,
}
use plo.FlashImxrt.Pages.{over, Programmed, done, failed, program_pages-Programmed}
use plo.FlashImxrt.Sizes.{
  IsSized, sector_of, sector_address-sector_of, sector_of-fits, sector-small, fewer, regroup,
}
use plo.FlashImxrt.Chip.{IsNor, Fault, erase_fails}

-- What `flashdrv_sync` does for a buffer that is not written yet: either the sector holds the buffer,
-- all other bytes are as before, and the buffer is marked as written; or an error leaves the buffer
-- marked as not written.
pub data Synced {F : Type 0} (ops : NorOps F) (cell : F → ℕ → ℕ) (dev : NorDevice F)
    : Option (Result ℕ × NorDevice F) → Type 0 where
  written :
      (f : F)
      → ((i : ℕ)
          → cell f i
            ≡ over dev.sector_buf
                (sector_of dev dev.sector_prev_addr)
                dev.nor.sector_sz
                (cell dev.flash)
                i)
      → Synced ops cell dev (
          some (
            ok dev.nor.sector_sz,
            record dev { flash = f; sector_sync_addr = dev.sector_prev_addr },
          ))
  refused :
      (e : ℕ) (f : F) → Fault ops e → Synced ops cell dev (some (err e, record dev { flash = f }))

module _ {F : Type 0} (ops : NorOps F) (cell : F → ℕ → ℕ) (dev : NorDevice F)
    (laws : IsNor ops cell dev.nor.sector_sz dev.nor.page_sz) where
  finish_sync-Synced :
      (out : Option (Result ℕ × F))
      → Programmed ops cell dev laws (sector_of dev dev.sector_prev_addr) (cell dev.flash) out
      → Synced ops cell dev (finish_sync dev out)
  finish_sync-Synced out (done n f h) = written f h
  finish_sync-Synced out (failed e f fault) = refused e f fault

  after_erase :
      (out : Result ℕ × F)
      → IsSized dev
      → ops.erase_sector (sector_of dev dev.sector_prev_addr) dev.timeout dev.flash ≡ out
      → Synced ops cell dev (
          finish_sync dev (
            next
              (λ _.
                program_pages ops dev
                  (sector_of dev dev.sector_prev_addr)
                  (suc dev.nor.sector_sz)
                  0)
              out))
  after_erase (err e, f) s call =
      refused e f (erase_fails (sector_of dev dev.sector_prev_addr) dev.timeout dev.flash f call)
  after_erase (ok n, f) s call =
      let sector = sector_of dev dev.sector_prev_addr in
      let quotient = dev.sector_prev_addr / dev.nor.sector_sz in
      finish_sync-Synced _ (
        program_pages-Programmed ops cell dev laws sector (cell dev.flash) s.pages
          (suc dev.nor.sector_sz) 0 (quotient * s.pages) f
          (fewer s.pages dev.nor.page_sz _ s.sector-pages s.page) (omega (arith, s.sector-pages))
          s.page s.buffer (sector_of-fits dev dev.sector_prev_addr s s.prev) (sector-small dev s)
          (omega (arith, regroup quotient s.pages dev.nor.page_sz _ s.sector-pages))
          (λ i. ground (arith, laws.erase quotient dev.timeout n dev.flash f call i)))

  -- `flashdrv_sync` of a buffer that holds a sector, is not marked as written, and has a byte that
  -- is not all ones.
  pub sync_device-Synced :
      IsSized dev
      → dev.sector_prev_addr ≢ no_addr
      → dev.sector_prev_addr ≢ dev.sector_sync_addr
      → all_ones (take dev.nor.sector_sz dev.sector_buf) ≡ false
      → Synced ops cell dev (sync_device ops dev)
  unfolding sync_device erase_old
  sync_device-Synced s held fresh mixed =
      let cached : (dev.sector_prev_addr == no_addr) ≡ false = ground arith in
      let dirty : (dev.sector_prev_addr == dev.sector_sync_addr) ≡ false = ground arith in
      rw (cached, dirty, mixed, sector_address-sector_of dev dev.sector_prev_addr s s.prev)
        (after_erase _ s refl)

-- What the driver holds: the flash, with the buffer over the sector that is cached.
abbrev pub view : {F : Type 0} → (F → ℕ → ℕ) → NorDevice F → ℕ → ℕ
view cell dev i =
    if dev.sector_prev_addr == no_addr
    then cell dev.flash i
    else over dev.sector_buf (sector_of dev dev.sector_prev_addr) dev.nor.sector_sz (cell dev.flash)
        i

-- The buffer is empty, is marked as not written and not all ones, or is what the sector holds.
pub data Held {F : Type 0} (cell : F → ℕ → ℕ) (dev : NorDevice F) : Type 0 where
  empty : dev.sector_prev_addr ≡ no_addr → dev.sector_sync_addr ≡ no_addr → Held cell dev
  dirty :
      dev.sector_prev_addr ≢ no_addr
      → dev.sector_prev_addr ≢ dev.sector_sync_addr
      → all_ones (take dev.nor.sector_sz dev.sector_buf) ≡ false
      → Held cell dev
  clean :
      dev.sector_prev_addr ≢ no_addr
      → dev.sector_prev_addr ≡ dev.sector_sync_addr
      → ((i : ℕ) → cell dev.flash i ≡ view cell dev i)
      → Held cell dev

-- What `flashdrv_sync` leaves behind: the flash is what the driver held, and the buffer is marked as
-- written; or it is an error of the chip, after which the buffer and its marks are as before.
pub data Flushed {F : Type 0} (ops : NorOps F) (cell : F → ℕ → ℕ) (dev : NorDevice F)
    : Option (Result ℕ × NorDevice F) → Type 0 where
  flushed :
      (n : ℕ) (f : F) (sync : ℕ)
      → sync ≡ dev.sector_prev_addr
      → ((i : ℕ) → cell f i ≡ view cell dev i)
      → Flushed ops cell dev (some (ok n, record dev { flash = f; sector_sync_addr = sync }))
  unflushed :
      (e : ℕ) (f : F) → Fault ops e → Flushed ops cell dev (some (err e, record dev { flash = f }))

module _ {F : Type 0} (ops : NorOps F) (cell : F → ℕ → ℕ) (dev : NorDevice F)
    (laws : IsNor ops cell dev.nor.sector_sz dev.nor.page_sz) where
  Synced-Flushed :
      (out : Option (Result ℕ × NorDevice F))
      → dev.sector_prev_addr ≢ no_addr
      → Synced ops cell dev out
      → Flushed ops cell dev out
  Synced-Flushed out held (written f h) =
      let cached : (dev.sector_prev_addr == no_addr) ≡ false = ground arith in
      flushed dev.nor.sector_sz f dev.sector_prev_addr refl (λ i. h i ∙ sym (rw cached refl))
  Synced-Flushed out held (refused e f fault) = unflushed e f fault

  -- After `flashdrv_sync` the flash is what the driver held, or the chip has failed and the buffer is
  -- as it was: for a chip that follows its laws and whose sectors are powers of two and made of whole
  -- pages, and a buffer that is empty, or is not marked as written and is not all ones, or is what
  -- its sector holds.
  pub sync_device-Flushed : IsSized dev → Held cell dev → Flushed ops cell dev (sync_device ops dev)
  unfolding sync_device
  sync_device-Flushed s (empty unused unmarked) =
      let cached : (dev.sector_prev_addr == no_addr) ≡ true = ground arith in
      rw cached
        (flushed 0 dev.flash dev.sector_sync_addr (unmarked ∙ sym unused) (λ i. rw cached refl))
  sync_device-Flushed s (dirty held fresh mixed) =
      Synced-Flushed _ held (sync_device-Synced ops cell dev laws s held fresh mixed)
  sync_device-Flushed s (clean held marked same) =
      let cached : (dev.sector_prev_addr == no_addr) ≡ false = ground arith in
      let synced : (dev.sector_prev_addr == dev.sector_sync_addr) ≡ true = ground arith in
      rw (cached, synced) (flushed 0 dev.flash dev.sector_sync_addr (sym marked) same)
