-- ===== src/Ptable.antt =====
-- lib/ptable.c: the checks of a partition table. The memory is a function from addresses to
-- bytes, and a table is its address. The host has the least byte first, as the macros `le32toh`
-- and `htole32` of the file presume.
pub mod Bytes
pub mod Sound
use plo.Common.{
  ℕ, zero, suc, ◌+◌, ◌-◌, ◌*◌, ◌%◌, Bool, true, false, ◌&&◌, ◌||◌, not, List, [], ◌∷◌, ltb, leb,
  ◌==◌, if◌then◌else◌,
}
use plo.Common.Bits.{u32}
use plo.Common.CString.{str_eq}
use plo.Common.Result.{Result, ok, err}
use plo.Ctype.{isalnum}
use plo.Crc32.{crc32}
use plo.Ptable.Bytes.{Memory, read8, read32, bytes_at, write8, write32, write_bytes}

-- `ptable_magic`
abbrev pub magic : List ℕ
magic = 0xde ∷ 0xad ∷ 0xfc ∷ 0xbe ∷ []

-- The fields of `ptable_t` at `a`, and of `ptable_part_t` at `p`.
abbrev pub count : Memory → ℕ → ℕ
count m a = read32 m a

abbrev pub version : Memory → ℕ → ℕ
version m a = read8 m (a + 4)

abbrev pub part_at : ℕ → ℕ → ℕ
part_at a i = a + 28 + i * 32

abbrev pub offset : Memory → ℕ → ℕ
offset m p = read32 m (p + 8)

abbrev pub size : Memory → ℕ → ℕ
size m p = read32 m (p + 12)

-- `ptable_size`, in 32 bits
unfoldable pub table_size : ℕ → ℕ
table_size n = u32 (28 + n * 32 + 4)

-- `~lib_crc32(data, len, 0xffffffff)`
unfoldable pub table_crc32 : Memory → ℕ → ℕ → ℕ
table_crc32 m a len = 0xffff_ffff - crc32 (bytes_at m a len) 0xffff_ffff

-- `n` turns of a loop from `i` on, which stops at the first that fails.
unfoldable pub all_from : (ℕ → Bool) → ℕ → ℕ → Bool
all_from f i zero = true
all_from f i (suc n) = f i && all_from f (suc i) n

-- The loop over `part->name`: the index of the first byte that is no letter or digit.
unfoldable pub name_end : Memory → ℕ → ℕ → ℕ
unfolding isalnum
name_end m a zero = 0
name_end m a (suc n) =
    let rest = name_end m (suc a) n in if isalnum (read8 m a) then suc rest else 0

unfoldable pub name_valid : Memory → ℕ → Bool
unfolding name_end
name_valid m p = let i = name_end m p 8 in not (i == 0 || leb 8 i || not (read8 m (p + i) == 0))

-- `hal_strcmp(a, b) == 0`. A name that passed `name_valid` ends within its 8 bytes, so that no
-- comparison reaches the end of `n = 8`.
unfoldable pub same_name : Memory → ℕ → ℕ → ℕ → Bool
same_name m a b zero = false
same_name m a b (suc n) =
    read8 m a == read8 m b && (read8 m a == 0 || same_name m (suc a) (suc b) n)

-- The tests of offset and size, with the sums in 32 bits.
unfoldable pub range_valid : Memory → ℕ → ℕ → ℕ → Bool
range_valid m memsz blksz p =
    not (size m p == 0)
    && size m p % blksz == 0
    && offset m p % blksz == 0
    && leb (u32 (offset m p + size m p)) memsz
    && leb (offset m p) (u32 (offset m p + size m p))

unfoldable pub parts_overlap : Memory → ℕ → ℕ → Bool
parts_overlap m part p =
    leb (offset m part) (u32 (offset m p + size m p + 0xffff_ffff))
    && leb (offset m p) (u32 (offset m part + size m part + 0xffff_ffff))

unfoldable pub crc_valid : Memory → Bool → ℕ → Bool
crc_valid m check p = not check || read32 m (p + 28) == table_crc32 m p 28

-- A turn of the loop over the partitions before `part`.
unfoldable pub apart_from : Memory → ℕ → ℕ → ℕ → Bool
apart_from m a part j =
    not (parts_overlap m part (part_at a j)) && not (same_name m part (part_at a j) 8)

-- `ptable_partVerify` of the partition with index `i`: whether it returns 0
unfoldable pub part_verify : Memory → ℕ → ℕ → ℕ → Bool → ℕ → Bool
part_verify m a memsz blksz check i =
    crc_valid m check (part_at a i)
    && range_valid m memsz blksz (part_at a i)
    && name_valid m (part_at a i)
    && all_from (apart_from m a (part_at a i)) 0 i

-- `crcCheck`: legacy tables have no checksums
unfoldable pub crc_check : Memory → ℕ → Bool
crc_check m a = not (version m a == 0 || version m a == 1 || version m a == 0xff)

-- `ptable_verify`: whether it returns 0
unfoldable pub verify : Memory → ℕ → ℕ → ℕ → Bool
verify m a memsz blksz =
    (not (crc_check m a) || read32 m (a + 24) == table_crc32 m a 24)
    && leb (table_size (count m a)) blksz
    && str_eq (bytes_at m (a + table_size (count m a) - 4) 4) magic
    && all_from (part_verify m a memsz blksz (crc_check m a)) 0 (count m a)

-- `ptable_deserialize`: NULL is address 0, and the conversions store what is there.
unfoldable pub deserialize : Memory → ℕ → ℕ → ℕ → Result (Unit {0}) × Memory
deserialize m a memsz blksz =
    if a == 0 then (err 1, m) else if verify m a memsz blksz then (ok tt, m) else (err 1, m)

-- The loop that writes the checksums of `n` partitions from index `i` on.
unfoldable pub write_crcs : ℕ → ℕ → ℕ → Memory → Memory
write_crcs a i zero m = m
write_crcs a i (suc n) m =
    write_crcs a (suc i) n (write32 m (part_at a i + 28) (table_crc32 m (part_at a i) 28))

-- What `ptable_serialize` writes before it verifies the table.
unfoldable pub sign : Memory → ℕ → Memory
sign m a =
    let m₁ = write8 m (a + 4) 2 in
    let m₂ = write32 m₁ (a + 24) (table_crc32 m₁ a 24) in
    let m₃ = write_crcs a 0 (count m₂ a) m₂ in
    write_bytes m₃ (a + table_size (count m₃ a) - 4) magic

-- `ptable_serialize`
unfoldable pub serialize : Memory → ℕ → ℕ → ℕ → Result (Unit {0}) × Memory
serialize m a memsz blksz =
    if a == 0
    then (err 1, m)
    else let m' = sign m a in if verify m' a memsz blksz then (ok tt, m') else (err 1, m')
