-- ===== src/Msg/Words.antt =====
-- The fields of the message's words, as arithmetic, and the four bytes of a word.
use plo.Common.{ℕ, ◌+◌, ◌*◌, ◌/◌, ◌%◌, ◌^◌, ◌<◌, ◌≡◌, arith, List, [], ◌∷◌, ◌++◌, bit_or}
use plo.Common.Bits.{bit_and_ones, bit_or_sum, bit_and_field, bit_or_comm}
use plo.Msg.Header.{
  Msg, get_type, set_type, get_len, set_len, get_csum, set_csum, get_seq, serialize32,
  deserialize32, set_low, set_high,
}

pub serialize32_bytes :
    (w : ℕ) → serialize32 w ≡ w % 256 ∷ w / 2 ^ 8 % 256 ∷ w / 2 ^ 16 % 256 ∷ w / 2 ^ 24 % 256 ∷ []
unfolding serialize32
serialize32_bytes w = ground (
  arith,
  bit_and_ones 8 w,
  bit_and_ones 8 (w / 2 ^ 8),
  bit_and_ones 8 (w / 2 ^ 16),
  bit_and_ones 8 (w / 2 ^ 24),
)

-- Four bytes put together.
pub word_of_bytes :
    (a b c d : ℕ)
    → a < 256
    → b < 256
    → c < 256
    → bit_or (bit_or (bit_or a (b * 2 ^ 8)) (c * 2 ^ 16)) (d * 2 ^ 24)
      ≡ a + b * 2 ^ 8 + c * 2 ^ 16 + d * 2 ^ 24
word_of_bytes a b c d ha hb hc = ground (
  arith,
  bit_or_comm a (b * 2 ^ 8),
  bit_or_sum 8 b a,
  bit_or_comm (a + b * 2 ^ 8) (c * 2 ^ 16),
  bit_or_sum 16 c (a + b * 2 ^ 8),
  bit_or_comm (a + b * 2 ^ 8 + c * 2 ^ 16) (d * 2 ^ 24),
  bit_or_sum 24 d (a + b * 2 ^ 8 + c * 2 ^ 16),
)

-- `msg_deserialize32` reads back the 32-bit word that `msg_serialize32` wrote, whatever follows.
pub deserialize32-serialize32 :
    (w : ℕ) (rest : List ℕ) → w < 2 ^ 32 → deserialize32 (serialize32 w ++ rest) 0 ≡ w
unfolding deserialize32
deserialize32-serialize32 w rest h =
    rw
      (
        serialize32_bytes w,
        word_of_bytes (w % 256) (w / 2 ^ 8 % 256) (w / 2 ^ 16 % 256) (w / 2 ^ 24 % 256)
            (omega arith) (omega arith) (omega arith),
      )
      (omega arith)

set_low_sum : (w v : ℕ) → set_low w v ≡ w / 2 ^ 16 % 2 ^ 16 * 2 ^ 16 + v % 2 ^ 16
set_low_sum w v = ground (
  arith,
  bit_and_field 16 16 w,
  bit_and_ones 16 v,
  bit_or_sum 16 (w / 2 ^ 16 % 2 ^ 16) (v % 2 ^ 16),
)

set_high_sum : (w v : ℕ) → set_high w v ≡ w % 2 ^ 16 + v % 2 ^ 16 * 2 ^ 16
set_high_sum w v = ground (
  arith,
  bit_and_ones 16 w,
  bit_or_comm (w % 2 ^ 16) (v % 2 ^ 16 * 2 ^ 16),
  bit_or_sum 16 (v % 2 ^ 16) (w % 2 ^ 16),
)

-- Of two 32-bit header words, each macro that sets a half is read back by the macro of that half,
-- modulo 2 ^ 16, and leaves the other half alone.
pub halves_lem :
    (m : Msg) (v : ℕ)
    → m.type < 2 ^ 32
    → m.csum < 2 ^ 32
    → (get_type (set_type m v) ≡ v % 2 ^ 16)
      × (get_len (set_type m v) ≡ get_len m)
      × (get_len (set_len m v) ≡ v % 2 ^ 16)
      × (get_type (set_len m v) ≡ get_type m)
      × (get_csum (set_csum m v) ≡ v % 2 ^ 16)
      × (get_seq (set_csum m v) ≡ get_seq m)
unfolding get_type set_type get_len set_len get_csum set_csum get_seq
halves_lem m v h h' = (
  ground (arith, set_low_sum m.type v, bit_and_ones 16 (set_low m.type v)),
  ground (arith, set_low_sum m.type v),
  ground (arith, set_high_sum m.type v),
  ground
      (arith, set_high_sum m.type v, bit_and_ones 16 (set_high m.type v), bit_and_ones 16 m.type),
  ground (arith, set_low_sum m.csum v, bit_and_ones 16 (set_low m.csum v)),
  ground (arith, set_low_sum m.csum v),
)
