-- ===== src/FlashImxrt/Erased.antt =====
-- devices/flash-imxrt/flashdrv.c: what `flashdrv_erase` erases, and what a write and a sync store.
use plo.Common.{
  ℕ, zero, suc, ◌+◌, ◌-◌, ◌*◌, ◌/◌, ◌%◌, ◌^◌, ◌≤◌, ◌<◌, ◌≡◌, ◌≢◌, refl, subst, ap, sym, ◌∙◌, arith,
  true, false, ◌&&◌, Option, some, length, ltb, leb, ◌==◌, if◌then◌else◌,
}
use plo.Common.Bits.{u32}
use plo.Common.CString.{Bytes}
use plo.Common.Result.{Result, ok, err, next, next?}
use plo.FlashImxrt.{NorDevice, NorInfo, NorOps, no_addr, erased_state, all_ones, sync_device}
use plo.FlashImxrt.Pages.{over}
use plo.FlashImxrt.Sizes.{
  IsSized, sector_of, sector_address-sector_of, sector-pos, quotient_le, span_lt, span_end,
  floor_le,
}
use plo.FlashImxrt.Sync.{Held, view, Flushed, flushed, unflushed, sync_device-Flushed}
use plo.FlashImxrt.Stored.{Wrote, wrote, unwritten, write_device-Wrote}
use plo.FlashImxrt.Access.{write_device, erase_loop, erase_device, erased, invalidate}
use plo.FlashImxrt.Chip.{IsNor, Fault, erase_fails, inside}

-- After a write and a call of `flashdrv_sync`: the flash has the bytes, and all else as the driver
-- held it; or the chip has failed.
pub data Durable {F : Type 0} (ops : NorOps F) (cell : F → ℕ → ℕ) (dev : NorDevice F) (dst : ℕ)
    (src : Bytes) : Option (Result ℕ × NorDevice F) → Type 0 where
  durable :
      (n : ℕ) (dev' : NorDevice F)
      → ((i : ℕ) → cell dev'.flash i ≡ over src dst (length src) (view cell dev) i)
      → Durable ops cell dev dst src (some (ok n, dev'))
  broken :
      (e : ℕ) (dev' : NorDevice F) → Fault ops e → Durable ops cell dev dst src (some (err e, dev'))

module _ {F : Type 0} (ops : NorOps F) (cell : F → ℕ → ℕ) (dev : NorDevice F)
    (laws : IsNor ops cell dev.nor.sector_sz dev.nor.page_sz) (dst : ℕ) (src : Bytes) where
  Flushed-Durable :
      (dev' : NorDevice F) (out : Option (Result ℕ × NorDevice F))
      → ((i : ℕ) → view cell dev' i ≡ over src dst (length src) (view cell dev) i)
      → Flushed ops cell dev' out
      → Durable ops cell dev dst src out
  Flushed-Durable dev' out held (flushed n f sync mark same) = durable n _ (λ i. same i ∙ held i)
  Flushed-Durable dev' out held (unflushed e f fault) = broken e _ fault

  Wrote-Durable :
      (out : Option (Result ℕ × NorDevice F))
      → Wrote ops cell dev dst src out
      → Durable ops cell dev dst src (next? (λ (_ : ℕ) dev'. sync_device ops dev') out)
  Wrote-Durable out (unwritten e dev' fault) = broken e dev' fault
  Wrote-Durable out (wrote dev' s held nor fresh same) = Flushed-Durable dev' _ same (
      sync_device-Flushed ops cell dev'
        (subst (λ (n : NorInfo). IsNor ops cell n.sector_sz n.page_sz) (sym nor) laws) s held)

  -- A write that `flashdrv_sync` follows puts the bytes into the flash and leaves all else as the driver
  -- held it, or the chip has failed. There is at least one byte, not all of them are ones, and they
  -- go to a part of one sector that ends before the sector does, lies inside the flash, and is as far from
  -- the end of the chip as a sector is long at least, so that in the last sector it is the start. The buffer
  -- is empty, or not marked as written and not all ones, or is what its sector holds, and if it holds
  -- the sector already, it is not marked as written. The chip follows the laws of a NOR flash, its
  -- sectors are powers of two and made of whole pages, and it ends below the address of all ones.
  pub write_device-Durable :
      IsSized dev
      → Held cell dev
      → 0 < length src
      → dst % dev.nor.sector_sz + length src < dev.nor.sector_sz
      → all_ones src ≡ false
      → dst + length src ≤ dev.flash_sz
      → dst + dev.nor.sector_sz ≤ dev.nor.total_sz
      → dev.nor.total_sz < no_addr
      → (dst / dev.nor.sector_sz ≡ dev.sector_prev_addr / dev.nor.sector_sz
          → dev.sector_prev_addr ≢ dev.sector_sync_addr)
      → Durable ops cell dev dst src
          (next? (λ (_ : ℕ) dev'. sync_device ops dev') (write_device ops dst src dev))
  write_device-Durable s held nonempty inner mixed size room small fresh = Wrote-Durable _ (
      write_device-Wrote ops cell dev laws dst src s held nonempty inner mixed size room small
        fresh)

-- The contents `base` with the sectors from `start` to `end` erased.
abbrev pub cleared : ℕ → ℕ → (ℕ → ℕ) → ℕ → ℕ
cleared start end base i = if leb start i && ltb i end then erased_state else base i

-- The sectors are erased up to the end and all else is as before, or the chip has failed.
data Swept {F : Type 0} (ops : NorOps F) (cell : F → ℕ → ℕ) (start end : ℕ) (base : ℕ → ℕ)
    : Option (Result ℕ × F) → Type 0 where
  swept :
      (n : ℕ) (f : F)
      → n ≡ end - start
      → ((i : ℕ) → cell f i ≡ cleared start end base i)
      → Swept ops cell start end base (some (ok n, f))
  unswept : (e : ℕ) (f : F) → Fault ops e → Swept ops cell start end base (some (err e, f))

-- What a call of `flashdrv_erase` leaves behind: the sectors that the range meets are all ones, all
-- else is as before, and the buffer is empty; or the chip has failed.
pub data Erased {F : Type 0} (ops : NorOps F) (cell : F → ℕ → ℕ) (dev : NorDevice F) (start end : ℕ)
    : Option (Result ℕ × NorDevice F) → Type 0 where
  erased_all :
      (f : F)
      → ((i : ℕ) → cell f i ≡ cleared start end (cell dev.flash) i)
      → Erased ops cell dev start end
          (some (ok (end - start), record (invalidate dev) { flash = f }))
  unerased :
      (e : ℕ) (f : F)
      → Fault ops e
      → Erased ops cell dev start end (some (err e, record (invalidate dev) { flash = f }))

module _ {F : Type 0} (ops : NorOps F) (cell : F → ℕ → ℕ) (dev : NorDevice F)
    (laws : IsNor ops cell dev.nor.sector_sz dev.nor.page_sz) (start end : ℕ) (base : ℕ → ℕ) where
  -- What follows the erasing of one sector.
  after_sector :
      (a q : ℕ) (f : F) (rest : F → Option (Result ℕ × F))
      → q * dev.nor.sector_sz ≡ a
      → start ≤ a
      → ((i : ℕ) → cell f i ≡ cleared start a base i)
      → ((f' : F)
          → ((i : ℕ) → cell f' i ≡ cleared start (a + dev.nor.sector_sz) base i)
          → Swept ops cell start end base (rest f'))
      → (out : Result ℕ × F) → ops.erase_sector a dev.timeout f ≡ out
      → Swept ops cell start end base (next (λ _. rest) out)
  after_sector a q f rest e from inv again (err c, f') call =
      unswept c f' (erase_fails a dev.timeout f f' call)
  after_sector a q f rest e from inv again (ok n, f') call =
      let effect : (i : ℕ)
          → cell f' i ≡ (if inside a dev.nor.sector_sz i then erased_state else cell f i) =
        subst
          (λ t.
            ops.erase_sector t dev.timeout f ≡ (ok n, f')
            → (i : ℕ)
            → cell f' i ≡ (if inside t dev.nor.sector_sz i then erased_state else cell f i))
          e (laws.erase q dev.timeout n f f') call in
      again f' (λ i. ground (arith, effect i, inv i))

  erase_loop-Swept :
      (left fuel a q len : ℕ) (f : F)
      → left < fuel
      → a + left * dev.nor.sector_sz ≡ end
      → q * dev.nor.sector_sz ≡ a
      → len + start ≡ a
      → end < 2 ^ 32
      → 0 < dev.nor.sector_sz
      → ((i : ℕ) → cell f i ≡ cleared start a base i)
      → Swept ops cell start end base (erase_loop ops dev fuel a end len f)
  unfolding erase_loop
  erase_loop-Swept left zero a q len f lt e eq sum small pos inv = absurd (omega arith)
  erase_loop-Swept zero (suc fuel) a q len f lt e eq sum small pos inv =
      let there : a ≡ end = omega arith in
      let stop : ltb a end ≡ false = ground arith in
      rw (stop, erase_loop)
        (swept len f (omega arith) (λ i. inv i ∙ ap (λ t. cleared start t base i) there))
  erase_loop-Swept (suc left) (suc fuel) a q len f lt e eq sum small pos inv =
      let more : a + dev.nor.sector_sz + left * dev.nor.sector_sz ≡ end = grind arith in
      let before : ltb a end ≡ true = ground arith in
      let behind : u32 (a + dev.nor.sector_sz) ≡ a + dev.nor.sector_sz = omega arith in
      let longer : u32 (len + dev.nor.sector_sz) ≡ len + dev.nor.sector_sz = omega arith in
      rw (before, behind, longer, erase_loop)
        (after_sector a q f _ eq (omega arith) inv
          (λ f'.
            erase_loop-Swept left fuel (a + dev.nor.sector_sz) (suc q) (len + dev.nor.sector_sz) f'
              (omega arith) more (grind arith) (omega arith) small pos)
          _ refl)

module _ {F : Type 0} (ops : NorOps F) (cell : F → ℕ → ℕ) (dev : NorDevice F)
    (laws : IsNor ops cell dev.nor.sector_sz dev.nor.page_sz) where
  Swept-Erased :
      (start end : ℕ) (out : Option (Result ℕ × F))
      → Swept ops cell start end (cell dev.flash) out
      → Erased ops cell dev start end (erased (invalidate dev) out)
  Swept-Erased start end out (swept n f len same) = rw len (erased_all f same)
  Swept-Erased start end out (unswept e f fault) = unerased e f fault

  -- `flashdrv_erase` of a range inside the flash that is not empty erases each sector that the range
  -- meets and nothing else, returns how many bytes that are, and empties the buffer; or the chip has
  -- failed. The chip follows the laws of a NOR flash, its sectors are powers of two, and it ends a
  -- sector before the address of all ones does, or earlier.
  pub erase_device-Erased :
      (addr len : ℕ)
      → IsSized dev
      → 0 < len
      → addr + len ≤ dev.flash_sz
      → dev.flash_sz + dev.nor.sector_sz ≤ no_addr
      → Erased ops cell dev
          (sector_of dev addr)
          (sector_of dev (addr + len + (dev.nor.sector_sz - 1)))
          (erase_device ops addr len dev)
  unfolding erase_device
  erase_device-Erased addr len s pos size small =
      let d = dev.nor.sector_sz in
      let dpos = sector-pos dev s in
      let last = addr + len + (d - 1) in
      let within : ltb dev.flash_sz (u32 (addr + len)) ≡ false = ground arith in
      let some' : (len == 0) ≡ false = ground arith in
      let part : (len == no_addr) ≡ false = ground arith in
      let word : u32 last ≡ last = omega arith in
      rw
        (
          within,
          some',
          part,
          word,
          sector_address-sector_of dev last s (omega arith),
          sector_address-sector_of dev addr s (omega arith),
        )
        (Swept-Erased _ _ _ (
          erase_loop-Swept ops cell dev laws (sector_of dev addr) (sector_of dev last)
            (cell dev.flash) (last / d - addr / d) (suc (sector_of dev last)) (sector_of dev addr)
            (addr / d) 0 dev.flash (span_lt (addr / d) (last / d) d dpos)
            (span_end (addr / d) (last / d) d (quotient_le addr last d dpos (omega arith))) refl
            (omega arith) (omega (arith, floor_le last d)) dpos (λ i. ground arith)))
