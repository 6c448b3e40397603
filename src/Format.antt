-- ===== src/Format.antt =====
-- lib/format.c: how `lib_formatSprintfNum` prints an integer. The branches for FLAG_DOUBLE and
-- FLAG_FLOAT are left out: the conversions that set them are under `#if 0`.
pub mod Value
pub mod Text
pub mod Bounds
pub mod ReadBack
pub mod RoundTrip
pub mod Parse
use plo.Common.{
  ℕ, zero, suc, ◌+◌, ◌-◌, ◌*◌, ◌/◌, ◌%◌, Bool, true, false, not, ◌&&◌, ◌||◌, List, [], ◌∷◌, ◌++◌,
  get_or, length, replicate, ltb, ◌==◌, if◌then◌else◌, bit_or,
}
use plo.Common.Bits.{u32}
use plo.Common.CString.{Bytes}

-- The bits of `flags`.
pub record Flags : Type 0 where
  pub signed : Bool
  pub bits64 : Bool
  pub space : Bool
  pub zeros : Bool
  pub plus : Bool
  pub hex : Bool
  pub oct : Bool
  pub large_digits : Bool
  pub alternate : Bool
  pub nullmark : Bool
  pub minus : Bool
  pub field_width_star : Bool

abbrev pub no_flags : Flags
no_flags = record {
  signed = false;
  bits64 = false;
  space = false;
  zeros = false;
  plus = false;
  hex = false;
  oct = false;
  large_digits = false;
  alternate = false;
  nullmark = false;
  minus = false;
  field_width_star = false;
}

-- The text `"0123456789abcdef"` or its large form.
abbrev pub digits_text : Bool → Bytes
digits_text false =
    b'0' ∷ b'1' ∷ b'2' ∷ b'3' ∷ b'4' ∷ b'5' ∷ b'6' ∷ b'7' ∷ b'8' ∷ b'9' ∷ b'a' ∷ b'b' ∷ b'c' ∷ b'd'
    ∷ b'e' ∷ b'f' ∷ []
digits_text true =
    b'0' ∷ b'1' ∷ b'2' ∷ b'3' ∷ b'4' ∷ b'5' ∷ b'6' ∷ b'7' ∷ b'8' ∷ b'9' ∷ b'A' ∷ b'B' ∷ b'C' ∷ b'D'
    ∷ b'E' ∷ b'F' ∷ []

unfoldable pub digit_char : Bool → ℕ → ℕ
digit_char large d = get_or (digits_text large) d 0

-- `tmp_buf` is filled from its front and read back from its end: here the last character that is
-- written stands first. A mask with `base - 1` and a shift are the remainder and the quotient.
module _ (large : Bool) (base : ℕ) where
  -- `while (n) { *tmp++ = digits[n % base]; n /= base; }`
  unfoldable pub put_digits : ℕ → ℕ → Bytes → Bytes
  put_digits zero n tmp = tmp
  put_digits (suc fuel) n tmp =
      let rest = put_digits fuel (n / base) (digit_char large (n % base) ∷ tmp) in
      if n == 0 then tmp else rest

  -- The same for a count of digits, with what is left of the number.
  unfoldable pub put_fixed : ℕ → ℕ → Bytes → ℕ × Bytes
  put_fixed zero n tmp = (n, tmp)
  put_fixed (suc k) n tmp = put_fixed k (n / base) (digit_char large (n % base) ∷ tmp)

-- The local variables `num64`, `num32`, `num_high` and `sign`, where 0 is no sign.
pub record Number : Type 0 where
  pub num64 : ℕ
  pub num32 : ℕ
  pub num_high : ℕ
  pub sign : ℕ

abbrev pub split : ℕ → ℕ → Number
split n sign = record { num64 = n; num32 = u32 n; num_high = n / 0x1_0000_0000; sign = sign }

-- The sign of a number that is not negative.
abbrev pub mark : Flags → ℕ
mark f = if f.space then b' ' else if f.plus then b'+' else 0

-- The number without its sign.
unfoldable pub take_sign : Flags → ℕ → Number
take_sign f n =
    let num = split n 0 in
    if not f.signed
    then num
    else if f.bits64
    then (if ltb num.num_high 0x8000_0000
        then split n (mark f)
        else split (0x1_0000_0000_0000_0000 - n) b'-')
    else if ltb num.num32 0x8000_0000
    then split n (mark f)
    else record (split n b'-') { num32 = 0x1_0000_0000 - num.num32 }

-- No number of 64 bits has more digits in any base from 2 on.
abbrev pub most_digits : ℕ
most_digits = 64

unfoldable pub hex_text : Bool → Bool → Number → Bytes
unfolding put_digits put_fixed
hex_text large wide n =
    if wide
    then put_digits large 16 most_digits n.num_high (put_fixed large 16 8 n.num32 []).1
    else put_digits large 16 most_digits n.num32 []

-- 30 bits, then a digit with two bits of `num32` and the lowest of `num_high`.
unfoldable pub oct_text : Bool → Bool → Number → Bytes
unfolding put_digits put_fixed
oct_text large wide n =
    let (left, tmp) = put_fixed large 8 10 n.num32 [] in
    if wide
    then put_digits large 8 most_digits (n.num_high / 2)
        (digit_char large (bit_or left (n.num_high % 2 * 4) % 8) ∷ tmp)
    else put_digits large 8 most_digits n.num32 []

unfoldable pub decimal_text : Bool → Bool → Number → Bytes
unfolding put_digits
decimal_text large wide n = put_digits large 10 most_digits (if wide then n.num64 else n.num32) []

-- What `tmp_buf` holds, from its end. `prefix` is "x0" or "X0", and the digits come behind it.
unfoldable pub number_text : Flags → Number → Bytes
unfolding hex_text oct_text decimal_text
number_text f n =
    let wide = f.bits64 && not (n.num_high == 0) in
    let large = f.large_digits in
    if n.num64 == 0
    then b'0' ∷ []
    else if f.hex
    then (if f.alternate
        then b'0' ∷ (if large then b'X' else b'x') ∷ hex_text large wide n
        else hex_text large wide n)
    else if f.oct
    then (if f.alternate then b'0' ∷ oct_text large wide n else oct_text large wide n)
    else decimal_text large wide n

abbrev pub sign_text : ℕ → Bytes
sign_text s = if s == 0 then [] else s ∷ []

-- `lib_formatSprintfNum`: what it feeds, in order. A width of 2 ^ 31 on is negative as an `int`.
unfoldable pub sprintf_num : ℕ → Flags → ℕ → Bytes
unfolding take_sign number_text
sprintf_num n f min_number_len =
    let num = take_sign f n in
    let text = number_text f num in
    let sign = sign_text num.sign in
    let pad_len =
      if ltb min_number_len 0x8000_0000 then min_number_len - length text - length sign else 0 in
    (if f.nullmark && n == 0 then b'(' ∷ b'n' ∷ b'i' ∷ b'l' ∷ b')' ∷ [] else [])
    ++ (if f.zeros then [] else replicate pad_len b' ')
    ++ sign
    ++ (if f.zeros then replicate pad_len b'0' else [])
    ++ text

-- `GET_UNSIGNED` and `GET_SIGNED`: the argument's word of 64 or of 32 bits as an `u64`.
abbrev pub get_unsigned : Flags → ℕ → ℕ
get_unsigned f arg = if f.bits64 then arg % 0x1_0000_0000_0000_0000 else u32 arg

abbrev pub get_signed : Flags → ℕ → ℕ
get_signed f arg =
    if f.bits64
    then arg % 0x1_0000_0000_0000_0000
    else if ltb (u32 arg) 0x8000_0000
    then u32 arg
    else u32 arg + 0xffff_ffff_0000_0000
