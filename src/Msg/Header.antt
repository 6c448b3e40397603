-- ===== src/Msg/Header.antt =====
-- The message and the macros of phfs/msg.h. A word keeps the bits above the fields that a macro
-- sets, and a host with the least byte first is modelled: `msg_serializeHeaders` then writes over
-- the header what it already holds.
use plo.Common.{ℕ, ◌+◌, ◌*◌, ◌/◌, ◌^◌, [], ◌∷◌, ◌++◌, take, get_or, bit_and, bit_or}
use plo.Common.Bits.{u16, u32}
use plo.Common.CString.{Bytes}

abbrev pub mark : ℕ
mark = 0x7e

abbrev pub esc : ℕ
esc = 0x7d

abbrev pub esc_mark : ℕ
esc_mark = 0x5e

abbrev pub esc_esc : ℕ
esc_esc = 0x5d

-- `MSG_HDRSZ` and `MSG_MAXLEN`
abbrev pub hdrsz : ℕ
hdrsz = 8

abbrev pub maxlen : ℕ
maxlen = 512

-- `msg_t`; `body` is its field `data`, of 512 bytes.
pub record Msg : Type 0 where
  pub csum : ℕ
  pub type : ℕ
  pub body : Bytes

-- The macros read and write the halves of a 32-bit word; `x & ~0xffff` keeps the upper one.
abbrev pub low_half : ℕ → ℕ
low_half w = bit_and w 0xffff

abbrev pub high_half : ℕ → ℕ
high_half w = w / 2 ^ 16

abbrev pub set_low : ℕ → ℕ → ℕ
set_low w v = bit_or (bit_and w 0xffff_0000) (bit_and v 0xffff)

abbrev pub set_high : ℕ → ℕ → ℕ
set_high w v = bit_or (bit_and w 0xffff) (u32 (v * 2 ^ 16))

unfoldable pub get_type : Msg → ℕ
get_type m = low_half m.type

unfoldable pub set_type : Msg → ℕ → Msg
set_type m t = record m { type = set_low m.type t }

unfoldable pub get_len : Msg → ℕ
get_len m = high_half m.type

unfoldable pub set_len : Msg → ℕ → Msg
set_len m l = record m { type = set_high m.type l }

unfoldable pub get_csum : Msg → ℕ
get_csum m = low_half m.csum

unfoldable pub set_csum : Msg → ℕ → Msg
set_csum m c = record m { csum = set_low m.csum c }

unfoldable pub get_seq : Msg → ℕ
get_seq m = high_half m.csum

-- `msg_serialize32`: the four bytes that it writes.
unfoldable pub serialize32 : ℕ → Bytes
serialize32 w =
    bit_and w 0xff
    ∷ bit_and (w / 2 ^ 8) 0xff
    ∷ bit_and (w / 2 ^ 16) 0xff
    ∷ bit_and (w / 2 ^ 24) 0xff
    ∷ []

-- `msg_deserialize32`, of the four bytes from index `i` on.
unfoldable pub deserialize32 : Bytes → ℕ → ℕ
deserialize32 b i =
    bit_or
      (bit_or (bit_or (get_or b i 0) (get_or b (i + 1) 0 * 2 ^ 8)) (get_or b (i + 2) 0 * 2 ^ 16))
      (get_or b (i + 3) 0 * 2 ^ 24)

-- The bytes of the structure that are sent: the header and as much of `data` as its length says.
unfoldable pub wire : Msg → Bytes
wire m = serialize32 m.csum ++ (serialize32 m.type ++ take (get_len m) m.body)

-- `csum += *((u8 *)msg + k)`, in 16 bits.
unfoldable pub sum16 : ℕ → Bytes → ℕ
sum16 acc [] = acc
sum16 acc (b ∷ bs) = sum16 (u16 (acc + b)) bs

-- `msg_csum`: the bytes behind `csum` up to the end, and the sequence number.
unfoldable pub checksum : Msg → ℕ
checksum m = u16 (sum16 0 (serialize32 m.type ++ take (get_len m) m.body) + get_seq m)
