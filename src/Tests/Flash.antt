-- ===== src/Tests/Flash.antt =====
-- Runs of devices/flash-imxrt/flashdrv.c on a chip with sectors of four bytes and pages of two.
use plo.Common.{
  ℕ, zero, suc, ◌+◌, ◌-◌, ◌^◌, ◌<◌, ◌≡◌, refl, ap, sym, ◌∙◌, arith, true, some, [], ◌∷◌, length,
  get_or, if◌then◌else◌,
}
use plo.Common.CString.{Bytes}
use plo.Common.Result.{Result, ok, next?}
use plo.FlashImxrt.{NorDevice, NorInfo, NorOps, no_addr, erased_state, all_ones, sync_device}
use plo.FlashImxrt.Chip.{IsNor, inside}
use plo.FlashImxrt.Sizes.{IsSized}
use plo.FlashImxrt.Sync.{empty, dirty, Flushed, sync_device-Flushed}
use plo.FlashImxrt.Access.{write_device, erase_device}
use plo.FlashImxrt.Erased.{Durable, write_device-Durable, Erased, erase_device-Erased}
use plo.FlashImxrt.Lost.{write_device_lost}

-- The contents of a chip are a function of the address.
abbrev Cells : Type 0
Cells = ℕ → ℕ

abbrev cells_at : ℕ → ℕ → Cells → Bytes
cells_at addr zero f = []
cells_at addr (suc n) f = f addr ∷ cells_at (suc addr) n f

abbrev chip : NorOps Cells
chip = record {
  erase_sector = λ addr timeout f. (ok 0, λ i. if inside addr 4 i then erased_state else f i);
  erase_chip_die = λ flags count size timeout f. (ok 0, λ i. erased_state);
  page_program = λ addr bytes timeout f.
      (ok 0, λ i. if inside addr 2 i then get_or bytes (i - addr) 0 else f i);
  read_data = λ addr size timeout f. ((ok size, cells_at addr size f), f);
  deinit = λ f. (ok 0, f);
}

abbrev cell : Cells → ℕ → ℕ
cell f i = f i

length-cells_at : (addr n : ℕ) (f : Cells) → length (cells_at addr n f) ≡ n
length-cells_at addr zero f = refl
length-cells_at addr (suc n) f = ap suc (length-cells_at (suc addr) n f)

get_or-cells_at : (addr n i : ℕ) (f : Cells) → i < n → get_or (cells_at addr n f) i 0 ≡ f (addr + i)
get_or-cells_at addr zero i f h = absurd (omega arith)
get_or-cells_at addr (suc n) zero f h = ap f (omega arith)
get_or-cells_at addr (suc n) (suc i) f h =
    get_or-cells_at (suc addr) n i f (omega arith)
    ∙ ap f {x = suc addr + i} {y = addr + suc i} (omega arith)

chip-IsNor : IsNor chip cell 4 2
chip-IsNor = record {
  erase = λ q timeout n f f' e i. sym (ap (λ (r : Result ℕ × Cells). r.1 i) e);
  program = λ q timeout n bytes f f' len blank e i. sym (ap (λ (r : Result ℕ × Cells). r.1 i) e);
  read = λ addr size timeout n bytes f f' e.
      let stored = ap (λ (r : (Result ℕ × Bytes) × Cells). r.0.1) e in
      (
        ap length (sym stored) ∙ length-cells_at addr size f,
        λ i h. ap (λ (bs : Bytes). get_or bs i 0) (sym stored) ∙ get_or-cells_at addr size i f h,
        λ i. sym (ap (λ (r : (Result ℕ × Bytes) × Cells). r.1 i) e),
      );
}

abbrev info : NorInfo
info = record { total_sz = 16; page_sz = 2; sector_sz = 4; cap_flags = 0 }

-- A device whose buffer holds `buf` for the sector of `prev`, written as far as `sync` says.
abbrev device : ℕ → ℕ → Bytes → NorDevice Cells
device prev sync buf = record {
  nor = info;
  flash = λ i. i;
  flash_sz = 16;
  ahb_addr = 0x6000_0000;
  active = true;
  timeout = 10;
  sector_prev_addr = prev;
  sector_sync_addr = sync;
  sector_buf = buf;
}

device-IsSized :
    (prev sync a b c d : ℕ) → prev < 2 ^ 32 → IsSized (device prev sync (a ∷ b ∷ c ∷ d ∷ []))
device-IsSized prev sync a b c d h = record {
  k = 2;
  pages = 2;
  k-lt = omega arith;
  sector = refl;
  sector-pages = refl;
  page = omega arith;
  buffer = omega arith;
  prev = h;
}

sync_device-Flushed_example :
    Flushed chip cell
      (device 5 no_addr (1 ∷ 2 ∷ 3 ∷ 4 ∷ []))
      (sync_device chip (device 5 no_addr (1 ∷ 2 ∷ 3 ∷ 4 ∷ [])))
unfolding all_ones
sync_device-Flushed_example =
    sync_device-Flushed chip cell (device 5 no_addr (1 ∷ 2 ∷ 3 ∷ 4 ∷ [])) chip-IsNor
      (device-IsSized 5 no_addr 1 2 3 4 (omega arith)) (dirty (omega arith) (omega arith) refl)

-- The first write after the start.
write_device-Durable_example :
    Durable chip cell (device no_addr no_addr (0 ∷ 0 ∷ 0 ∷ 0 ∷ [])) 9 (7 ∷ 8 ∷ []) (
      next?
        (λ (_ : ℕ) dev. sync_device chip dev)
        (write_device chip 9 (7 ∷ 8 ∷ []) (device no_addr no_addr (0 ∷ 0 ∷ 0 ∷ 0 ∷ []))))
unfolding all_ones
write_device-Durable_example =
    write_device-Durable chip cell (device no_addr no_addr (0 ∷ 0 ∷ 0 ∷ 0 ∷ [])) chip-IsNor 9
      (7 ∷ 8 ∷ []) (device-IsSized no_addr no_addr 0 0 0 0 (omega arith)) (empty refl refl)
      (omega arith) (omega arith) refl (omega arith) (omega arith) (omega arith) (λ e. omega arith)

erase_device-Erased_example :
    Erased chip cell
      (device 5 5 (1 ∷ 2 ∷ 3 ∷ 4 ∷ []))
      4
      12
      (erase_device chip 5 6 (device 5 5 (1 ∷ 2 ∷ 3 ∷ 4 ∷ [])))
erase_device-Erased_example =
    erase_device-Erased chip cell (device 5 5 (1 ∷ 2 ∷ 3 ∷ 4 ∷ [])) chip-IsNor 5 6
      (device-IsSized 5 5 1 2 3 4 (omega arith)) (omega arith) (omega arith) (omega arith)

write_device_lost_example :
    next?
      (λ (_ : ℕ) dev. sync_device chip dev)
      (write_device chip 6 (7 ∷ []) (device 5 5 (1 ∷ 2 ∷ 3 ∷ 4 ∷ [])))
    ≡ some (ok 0, device 5 5 (1 ∷ 2 ∷ 7 ∷ 4 ∷ []))
write_device_lost_example =
    write_device_lost chip (device 5 5 (1 ∷ 2 ∷ 3 ∷ 4 ∷ [])) 6 (7 ∷ [])
      (device-IsSized 5 5 1 2 3 4 (omega arith)) (omega arith) refl refl (omega arith) (omega arith)
      (omega arith) (omega arith)
