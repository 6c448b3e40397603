-- ===== src/Ramdrv.antt =====
-- devices/ram-storage/ramdrv.c: the driver of a bank of memory. The state is what the bank holds;
-- `ram_addr` and `bank_size` are the macros of the board's headers.
pub mod Stored
use plo.Common.{
  ℕ, zero, suc, ◌+◌, ◌-◌, Bool, true, false, not, ◌&&◌, ◌||◌, Option, none, some, List, [], ◌∷◌,
  ◌++◌, length, take, drop, ltb, leb, ◌==◌, if◌then◌else◌, bit_and,
}
use plo.Common.Bits.{u32}
use plo.Common.CString.{Bytes}
use plo.Common.Result.{Result, ok, err, einval}
use plo.Devs.{Ops, Dev}

-- `RAM_NO`
abbrev pub ram_no : ℕ
ram_no = 1

-- `dev_isMappable` and `dev_isNotMappable`
abbrev pub is_mappable : ℕ
is_mappable = 0

abbrev pub is_not_mappable : ℕ
is_not_mappable = 1

-- `hal_memcpy` into the bank
abbrev pub copy_to : Bytes → Bytes → Bytes
copy_to [] buff = []
copy_to (m ∷ mem) [] = m ∷ mem
copy_to (m ∷ mem) (b ∷ buff) = b ∷ copy_to mem buff

abbrev pub splice : Bytes → ℕ → Bytes → Bytes
splice mem zero buff = copy_to mem buff
splice [] (suc offs) buff = []
splice (m ∷ mem) (suc offs) buff = m ∷ splice mem offs buff

unfoldable pub is_valid_minor : ℕ → Bool
is_valid_minor minor = ltb minor ram_no

module _ (ram_addr bank_size : ℕ) where
  -- `ramParams[minor].end - ramParams[minor].start`
  abbrev pub region_size : ℕ
  region_size = ram_addr + bank_size - ram_addr

  unfoldable pub is_valid_address : ℕ → ℕ → Bool
  is_valid_address off size = ltb off region_size && leb size (region_size - off)

  unfoldable pub ram_read : ℕ → ℕ → ℕ → ℕ → Bytes → Result Bytes × Bytes
  ram_read minor offs len timeout mem =
      if is_valid_minor minor && is_valid_address offs len
      then (ok (take len (drop offs mem)), mem)
      else (err einval, mem)

  unfoldable pub ram_write : ℕ → ℕ → Bytes → Bytes → Result ℕ × Bytes
  ram_write minor offs buff mem =
      if not (is_valid_minor minor) || not (is_valid_address offs (length buff))
      then (err einval, mem)
      else (ok (length buff), splice mem offs buff)

  unfoldable pub ram_sync : ℕ → Bytes → Result ℕ × Bytes
  ram_sync minor mem = if is_valid_minor minor then (ok 0, mem) else (err einval, mem)

  -- `ramdrv_done` and `ramdrv_init` change nothing, and their callers ignore the result.
  abbrev pub ram_keep : ℕ → Bytes → Bytes
  ram_keep minor mem = mem

  -- The sum of the offset and the size wraps. The address is stored where the result is mappable.
  unfoldable pub ram_map : ℕ → ℕ → ℕ → ℕ → ℕ → ℕ → ℕ → Bytes → (Result ℕ × Option ℕ) × Bytes
  ram_map minor addr sz mode memaddr memsz memmode mem =
      if not (is_valid_minor minor)
      then ((err einval, none), mem)
      else if leb region_size (u32 (addr + sz))
      then ((err einval, none), mem)
      else if leb ram_addr memaddr && leb (u32 (memaddr + memsz)) (u32 (ram_addr + region_size))
      then ((ok is_mappable, some ram_addr), mem)
      else if not (bit_and mode memmode == mode)
      then ((err einval, none), mem)
      else ((ok is_not_mappable, none), mem)

  -- `opsRamStorage` and `devRamStorage`
  unfoldable pub ram_device : Dev Bytes
  ram_device = record {
    name = some (b'r' ∷ b'a' ∷ b'm' ∷ b'-' ∷ b's' ∷ b't' ∷ b'o' ∷ b'r' ∷ b'a' ∷ b'g' ∷ b'e' ∷ []);
    init = some ram_keep;
    done = some ram_keep;
    ops = some record {
      sync = some ram_sync;
      mapped = some ram_map;
      control = none;
      read = some ram_read;
      write = some ram_write;
      erase = none;
    };
  }
