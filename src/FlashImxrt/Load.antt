-- ===== src/FlashImxrt/Load.antt =====
-- devices/flash-imxrt/flashdrv.c: the buffer after `bufferSync`.
use plo.Common.{
  ℕ, ◌+◌, ◌-◌, ◌/◌, ◌^◌, ◌≤◌, ◌<◌, ◌≡◌, ◌≢◌, refl, ap, sym, ◌∙◌, arith, false, Bool-cases, Option,
  some, inl, inr, length, ltb, leb, ◌==◌,
}
use plo.Common.Bits.{u32}
use plo.Common.CString.{Bytes}
use plo.Common.Result.{Result, ok, err, next?}
use plo.FlashImxrt.{NorDevice, NorOps, no_addr, sector_id}
use plo.Ramdrv.{copy_to}
use plo.Ramdrv.Stored.{copy_to-length, copy_to-get_or}
use plo.FlashImxrt.Pages.{over}
use plo.FlashImxrt.Sizes.{IsSized, sector_of, sector_address-sector_of, sector-pos, sectors_apart}
use plo.FlashImxrt.Sync.{Held, view, Flushed, flushed, unflushed, sync_device-Flushed}
use plo.FlashImxrt.Access.{change_sector, buffer_sync, refilled}
use plo.FlashImxrt.Chip.{IsNor, Fault, read_fails, inside}

-- After a call of `bufferSync` for a write to `dst`: the sector of `dst` is in the buffer, as the
-- driver held it, and the buffer is not marked as written.
pub data Loaded {F : Type 0} (ops : NorOps F) (cell : F → ℕ → ℕ) (dev : NorDevice F) (dst : ℕ)
    : Option (Result ℕ × NorDevice F) → Type 0 where
  loaded :
      (n : ℕ) (f : F) (buf : Bytes) (prev sync : ℕ)
      → prev / dev.nor.sector_sz ≡ dst / dev.nor.sector_sz
      → prev < 2 ^ 32
      → prev ≢ no_addr
      → prev ≢ sync
      → length buf ≡ length dev.sector_buf
      → ((i : ℕ) → over buf (sector_of dev dst) dev.nor.sector_sz (cell f) i ≡ view cell dev i)
      → Loaded ops cell dev dst (
          some (
            ok n,
            record dev {
              flash = f;
              sector_buf = buf;
              sector_prev_addr = prev;
              sector_sync_addr = sync;
            },
          ))
  unloaded :
      (e : ℕ) (dev' : NorDevice F) → Fault ops e → Loaded ops cell dev dst (some (err e, dev'))

module _ {F : Type 0} (ops : NorOps F) (cell : F → ℕ → ℕ) (dev : NorDevice F)
    (laws : IsNor ops cell dev.nor.sector_sz dev.nor.page_sz) (dst : ℕ) where
  -- The reading of the sector, with the flash and the mark as the call of `flashdrv_sync` left them.
  refilled-Loaded :
      (f : F) (sync : ℕ) (out : (Result ℕ × Bytes) × F)
      → IsSized dev
      → dst < no_addr
      → dst ≢ sync
      → ((i : ℕ) → cell f i ≡ view cell dev i)
      → ops.read_data (sector_of dev dst) dev.nor.sector_sz dev.timeout f ≡ out
      → Loaded ops cell dev dst
          (refilled (record dev { flash = f; sector_sync_addr = sync }) dst out)
  refilled-Loaded f sync ((err e, bytes), f') s h ne same call =
      unloaded e _ (read_fails (sector_of dev dst) dev.nor.sector_sz dev.timeout bytes f f' call)
  refilled-Loaded f sync ((ok n, bytes), f') s h ne same call =
      let effect = laws.read (sector_of dev dst) dev.nor.sector_sz dev.timeout n bytes f f' call in
      loaded n f' (copy_to dev.sector_buf bytes) dst sync refl (omega arith) (ground arith) ne
        (copy_to-length dev.sector_buf bytes)
        (λ i. elim (Bool-cases (inside (sector_of dev dst) dev.nor.sector_sz i)) [
          | inl within ↦
              let ofs = i - sector_of dev dst in
              let inner : ofs < dev.nor.sector_sz = ground arith in
              rw within (
                copy_to-get_or dev.sector_buf bytes ofs (omega (arith, effect.0))
                  (omega (arith, effect.0, s.buffer))
                ∙ effect.1 ofs inner
                ∙ ap (λ a. cell f a) {x = sector_of dev dst + ofs} {y = i} (ground arith)
                ∙ same i)
          | inr without ↦ rw without (effect.2 i ∙ same i)
        ])

  changed-Loaded :
      (out : Option (Result ℕ × NorDevice F))
      → IsSized dev
      → dst + dev.nor.sector_sz ≤ dev.nor.total_sz
      → dev.nor.total_sz < no_addr
      → dst ≢ dev.sector_prev_addr
      → Flushed ops cell dev out
      → Loaded ops cell dev dst (next? (change_sector ops dst false) out)
  unfolding change_sector
  changed-Loaded out s room small ne (unflushed e f fault) = unloaded e _ fault
  changed-Loaded out s room small ne (flushed n f sync mark same) =
      let before : leb dev.nor.total_sz dst ≡ false = ground (arith, sector-pos dev s) in
      let fits : ltb dev.nor.total_sz (u32 (dst + dev.nor.sector_sz)) ≡ false = ground arith in
      rw (before, fits, sector_address-sector_of dev dst s (omega arith))
        (refilled-Loaded f sync _ s (omega arith) (λ e. ne (e ∙ mark)) same refl)

  pub buffer_sync-Loaded :
      IsSized dev
      → Held cell dev
      → dst + dev.nor.sector_sz ≤ dev.nor.total_sz
      → dev.nor.total_sz < no_addr
      → (dst / dev.nor.sector_sz ≡ dev.sector_prev_addr / dev.nor.sector_sz
          → dev.sector_prev_addr ≢ dev.sector_sync_addr)
      → Loaded ops cell dev dst (buffer_sync ops dst false dev)
  unfolding buffer_sync sector_id
  buffer_sync-Loaded s held room small fresh =
      elim (Bool-cases (dst / dev.nor.sector_sz == dev.sector_prev_addr / dev.nor.sector_sz)) [
        | inl same ↦
            let hit : dst / dev.nor.sector_sz ≡ dev.sector_prev_addr / dev.nor.sector_sz =
              ground arith in
            let used : dev.sector_prev_addr ≢ no_addr = λ e.
              sectors_apart dst dev.nor.sector_sz no_addr (sector-pos dev s) (omega arith)
                (hit ∙ ap (λ a. a / dev.nor.sector_sz) e) in
            let cached : (dev.sector_prev_addr == no_addr) ≡ false = ground arith in
            rw same (
              loaded 0 dev.flash dev.sector_buf dev.sector_prev_addr dev.sector_sync_addr (sym hit)
                s.prev used (fresh hit) refl (λ i. rw (cached, hit) refl))
        | inr other ↦ rw other (
            changed-Loaded _ s room small (λ e. ground (arith, ap (λ a. a / dev.nor.sector_sz) e))
              (sync_device-Flushed ops cell dev laws s held))
      ]
