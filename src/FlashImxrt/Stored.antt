-- ===== src/FlashImxrt/Stored.antt =====
-- devices/flash-imxrt/flashdrv.c: what `flashdrv_write` stores.
use native.Mathlib.Nat.{div-add-mod}
use plo.Common.{
  take-all, drop-all, ℕ, suc, ◌+◌, ◌-◌, ◌/◌, ◌%◌, ◌^◌, min, ◌≤◌, ◌<◌, ◌≡◌, ◌≢◌, refl, ap₂, ◌∙◌,
  arith, true, false, Option, some, [], ◌∷◌, length, drop, get_or, ltb, ◌==◌, if◌then◌else◌,
  bit_and,
}
use plo.Common.Bits.{u32}
use plo.Common.CString.{Bytes}
use plo.Common.Result.{Result, ok, err, next?}
use plo.FlashImxrt.{NorDevice, NorOps, no_addr, all_ones}
use plo.Common.Bits.{bit_and_ones}
use plo.Ramdrv.{splice}
use plo.Ramdrv.Stored.{splice-length}
use plo.FlashImxrt.Pages.{over}
use plo.FlashImxrt.Sizes.{IsSized, sector_of}
use plo.FlashImxrt.Contents.{mixed-splice, over-splice}
use plo.FlashImxrt.Sync.{Held, dirty, view}
use plo.FlashImxrt.Access.{sector_ofs, chunk_sz, put_chunk, write_loop, write_device, buffer_sync}
use plo.FlashImxrt.Chip.{IsNor, Fault, inside}
use plo.FlashImxrt.Load.{Loaded, loaded, unloaded, buffer_sync-Loaded}

-- After a write to the addresses from `dst` on: the driver holds the bytes there and all else as
-- before, in a buffer that is not marked as written; or it is an error of the chip.
pub data Wrote {F : Type 0} (ops : NorOps F) (cell : F → ℕ → ℕ) (dev : NorDevice F) (dst : ℕ)
    (src : Bytes) : Option (Result ℕ × NorDevice F) → Type 0 where
  wrote :
      (dev' : NorDevice F)
      → IsSized dev'
      → Held cell dev'
      → dev'.nor ≡ dev.nor
      → dev'.sector_prev_addr ≢ dev'.sector_sync_addr
      → ((i : ℕ) → view cell dev' i ≡ over src dst (length src) (view cell dev) i)
      → Wrote ops cell dev dst src (some (ok (length src), dev'))
  unwritten :
      (e : ℕ) (dev' : NorDevice F) → Fault ops e → Wrote ops cell dev dst src (some (err e, dev'))

module _ {F : Type 0} (dev : NorDevice F) where
  pub sector_ofs-mod : (dst : ℕ) → IsSized dev → sector_ofs dev dst ≡ dst % dev.nor.sector_sz
  sector_ofs-mod dst s = rw s.sector (bit_and_ones s.k dst)

  -- What is put into the buffer by one turn of the loop.
  chunk_sz-whole :
      (dst : ℕ) (src : Bytes)
      → IsSized dev
      → dst % dev.nor.sector_sz + length src < dev.nor.sector_sz
      → chunk_sz dev dst src ≡ length src
  chunk_sz-whole dst src s h = omega (arith, sector_ofs-mod dst s)

-- The first turn of the loop.
pub write_loop-turn :
    {F : Type 0} (ops : NorOps F) (dev : NorDevice F) (dst : ℕ) (src : Bytes)
    → 0 < length src
    → (P : Option (Result ℕ × NorDevice F) → Type 0)
    → ((fuel : ℕ)
        → P (
            next?
              (λ (res : ℕ) dev'.
                write_loop ops
                  (suc fuel)
                  (u32 (dst + chunk_sz dev' dst src))
                  (drop (chunk_sz dev' dst src) src)
                  (put_chunk dev' dst src))
              (buffer_sync ops dst false dev)))
    → P (write_loop ops (suc (length src)) dst src dev)
unfolding write_loop
write_loop-turn ops dev dst [] h P p = absurd (omega arith)
write_loop-turn ops dev dst (b ∷ bytes) h P p = p (length bytes)

-- The last address of a sector and those before it.
pub same_sector : (a d n : ℕ) → a % d + n < d → (a + n) / d ≡ a / d
same_sector a d n h = grind arith

module _ {F : Type 0} (ops : NorOps F) (cell : F → ℕ → ℕ) (dev : NorDevice F)
    (laws : IsNor ops cell dev.nor.sector_sz dev.nor.page_sz) (dst : ℕ) (src : Bytes) where
  -- The buffer with the bytes in it, after the call of `bufferSync` for them.
  put-Wrote :
      (f : F) (buf : Bytes) (prev sync : ℕ)
      → IsSized dev
      → dst % dev.nor.sector_sz + length src < dev.nor.sector_sz
      → all_ones src ≡ false
      → prev / dev.nor.sector_sz ≡ dst / dev.nor.sector_sz
      → prev < 2 ^ 32
      → prev ≢ no_addr
      → prev ≢ sync
      → length buf ≡ length dev.sector_buf
      → ((i : ℕ) → over buf (sector_of dev dst) dev.nor.sector_sz (cell f) i ≡ view cell dev i)
      → Wrote ops cell dev dst src (
          some (
            ok (length src),
            record dev {
              flash = f;
              sector_buf = splice buf (dst % dev.nor.sector_sz) src;
              sector_prev_addr = prev;
              sector_sync_addr = sync;
            },
          ))
  put-Wrote f buf prev sync s inner mixed same word used fresh len held =
      let cached : (prev == no_addr) ≡ false = ground arith in
      let at : sector_of dev dst + dst % dev.nor.sector_sz ≡ dst =
        omega (arith, div-add-mod dst dev.nor.sector_sz) in
      wrote _
        record {
          k = s.k;
          pages = s.pages;
          k-lt = s.k-lt;
          sector = s.sector;
          sector-pages = s.sector-pages;
          page = s.page;
          buffer = omega (arith, s.buffer, len, splice-length buf (dst % dev.nor.sector_sz) src);
          prev = word;
        }
        (dirty used fresh (
          mixed-splice dev.nor.sector_sz buf (dst % dev.nor.sector_sz) src (omega arith)
            (omega (arith, s.buffer, len)) mixed))
        refl fresh
        (λ i.
          let put =
            over-splice buf (sector_of dev dst) (dst % dev.nor.sector_sz) dev.nor.sector_sz src
              (cell f) i (omega arith) (omega (arith, s.buffer, len)) in
          rw (cached, same)
            (put
              ∙ ap₂ (λ a c. if inside a (length src) i then get_or src (i - a) 0 else c) at
                  (held i)))

  -- The turn of the loop, and the call of `bufferSync` behind it.
  Loaded-Wrote :
      (fuel : ℕ) (out : Option (Result ℕ × NorDevice F))
      → IsSized dev
      → dst % dev.nor.sector_sz + length src < dev.nor.sector_sz
      → all_ones src ≡ false
      → dst + length src < 2 ^ 32
      → Loaded ops cell dev dst out
      → Wrote ops cell dev dst src (
          next?
            (λ dst' dev'.
              next?
                (λ (_ : ℕ) dev''. some (ok (length src), dev''))
                (buffer_sync ops dst' true dev'))
            (next?
              (λ (res : ℕ) dev'.
                write_loop ops
                  (suc fuel)
                  (u32 (dst + chunk_sz dev' dst src))
                  (drop (chunk_sz dev' dst src) src)
                  (put_chunk dev' dst src))
              out))
  unfolding buffer_sync write_loop
  Loaded-Wrote fuel out s inner mixed small (unloaded c dev' fault) = unwritten c dev' fault
  Loaded-Wrote fuel out s inner mixed small
        (loaded n f buf prev sync same word used fresh len held) =
      let ofs : bit_and dst (dev.nor.sector_sz - 1) ≡ dst % dev.nor.sector_sz =
        sector_ofs-mod dev dst s in
      let whole : min (length src) (dev.nor.sector_sz - dst % dev.nor.sector_sz) ≡ length src =
        omega arith in
      let behind : u32 (dst + length src) ≡ dst + length src = omega arith in
      let hit : ((dst + length src) / dev.nor.sector_sz == prev / dev.nor.sector_sz) ≡ true =
        ground (arith, same_sector dst dev.nor.sector_sz (length src) inner) in
      rw
        (
          ofs,
          whole,
          take-all (length src) src (omega arith),
          drop-all (length src) src (omega arith),
          behind,
          hit,
        )
        (put-Wrote f buf prev sync s inner mixed same word used fresh len held)

  -- A write of at least one byte that is not all ones, to a part of one sector that ends before the
  -- sector does: the driver then holds the bytes in their place and all else as before, in a state
  -- that `flashdrv_sync` brings to the flash, or the chip has failed. The sector is inside the chip,
  -- the driver is in such a state before, and if it caches the sector already, its buffer is not
  -- marked as written.
  pub write_device-Wrote :
      IsSized dev
      → Held cell dev
      → 0 < length src
      → dst % dev.nor.sector_sz + length src < dev.nor.sector_sz
      → all_ones src ≡ false
      → dst + length src ≤ dev.flash_sz
      → dst + dev.nor.sector_sz ≤ dev.nor.total_sz
      → dev.nor.total_sz < no_addr
      → (dst / dev.nor.sector_sz ≡ dev.sector_prev_addr / dev.nor.sector_sz
          → dev.sector_prev_addr ≢ dev.sector_sync_addr)
      → Wrote ops cell dev dst src (write_device ops dst src dev)
  unfolding write_device write_loop
  write_device-Wrote s held nonempty inner mixed size room small fresh =
      let within : ltb dev.flash_sz (u32 (dst + length src)) ≡ false = ground arith in
      let more : (length src == 0) ≡ false = ground arith in
      rw (within, more)
        (write_loop-turn ops dev dst src nonempty
          (λ out. Wrote ops cell dev dst src (
            next?
              (λ dst' dev'.
                next? (λ (_ : ℕ) dev''. some (ok (length src), dev''))
                  (buffer_sync ops dst' true dev'))
              out))
          (λ fuel.
            Loaded-Wrote fuel _ s inner mixed (omega arith)
              (buffer_sync-Loaded ops cell dev laws dst s held room small fresh)))
