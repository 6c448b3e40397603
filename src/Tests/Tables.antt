-- ===== src/Tests/Tables.antt =====
-- lib/ptable.c on a table with two partitions, without checksums.
use plo.Common.{ℕ, ◌<◌, ◌≡◌, refl, true, List, [], ◌∷◌, ◌++◌, get_or, replicate, arith}
use plo.Common.CString.{str_eq}
use plo.Ctype.{isalnum}
use plo.Crc32.{crc32}
use plo.Ptable.Bytes.{Memory, read8, read32, bytes_at}
use plo.Ptable.{
  all_from, table_size, name_end, name_valid, same_name, range_valid, parts_overlap, crc_valid,
  count, apart_from, part_verify, crc_check, verify, table_crc32,
}
use plo.Ptable.Sound.{Sound, verify-Sound}

abbrev word : ℕ → List ℕ
word n = n ∷ 0 ∷ 0 ∷ 0 ∷ []

-- A partition named by a letter, with offset and size below 256 bytes.
abbrev part : ℕ → ℕ → ℕ → List ℕ
part name offset size =
    (name ∷ replicate 7 0) ++ (word offset ++ (word size ++ (0x51 ∷ replicate 15 0)))

-- The table lies at address 16.
abbrev image : List ℕ
image =
    replicate 16 0
    ++ (word 2
        ++ (replicate 24 0
            ++ (part b'a' 0 128 ++ (part b'b' 128 128 ++ (0xde ∷ 0xad ∷ 0xfc ∷ 0xbe ∷ [])))))

abbrev memory : Memory
memory a = get_or image a 0

verify_run : verify memory 16 256 128 ≡ true
unfolding verify crc_check crc_valid table_crc32 table_size read8 read32 bytes_at str_eq all_from
    part_verify range_valid name_valid name_end isalnum apart_from parts_overlap same_name
verify_run = refl

two_parts : 1 < count memory 16
unfolding read8 read32
two_parts = omega arith

verify-Sound_example : Sound memory 16 256 128 1
verify-Sound_example = verify-Sound memory 16 256 128 (omega arith) verify_run 1 two_parts

-- The check value of the polynomial, before the final complement.
crc32_run :
    crc32 (b'1' ∷ b'2' ∷ b'3' ∷ b'4' ∷ b'5' ∷ b'6' ∷ b'7' ∷ b'8' ∷ b'9' ∷ []) 0xffff_ffff
    ≡ 0x340b_c6d9
unfolding crc32
crc32_run = refl
