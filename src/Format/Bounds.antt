-- ===== src/Format/Bounds.antt =====
-- lib/format.c: how much `lib_formatSprintfNum` writes to `tmp_buf`, and how much it feeds.
use plo.Common.{
  ℕ, ◌+◌, ◌-◌, ◌*◌, ◌/◌, ◌%◌, ◌≤◌, ◌<◌, ◌≡◌, arith, Bool, Bool-cases, true, false, not, ◌&&◌,
  lt→ltb, ◌==◌, [], ◌∷◌, ◌++◌, length, length-append, length-replicate, replicate, inl, inr, bit_or,
}
use Prim.Native.Nat.{max}
use plo.Common.CString.{Bytes}
use plo.Format.{
  Flags, Number, take_sign, digit_char, put_fixed, hex_text, oct_text, decimal_text, number_text,
  most_digits, sprintf_num, sign_text,
}
use plo.Format.Value.{length-put_digits, length-put_fixed}
use plo.Format.Text.{Holds, Holds-narrow, take_sign-Taken, word, width, magnitude}

hex_text-length :
    (large wide : Bool) (num : Number) (m : ℕ)
    → Holds wide num m
    → length (hex_text large wide num) ≤ 16
unfolding hex_text
hex_text-length large false num m h = omega (
  arith,
  length-put_digits large 16 (omega arith) (omega arith) 8 most_digits num.num32 []
      (omega (arith, h)),
)
hex_text-length large true num m h = omega (
  arith,
  length-put_digits large 16 (omega arith) (omega arith) 8 most_digits num.num_high
      (put_fixed large 16 8 num.num32 []).1 (omega (arith, h)),
  length-put_fixed large 16 (omega arith) (omega arith) 8 num.num32 [],
)

oct_text-length :
    (large wide : Bool) (num : Number) (m : ℕ)
    → Holds wide num m
    → length (oct_text large wide num) ≤ 22
unfolding oct_text
oct_text-length large false num m h = omega (
  arith,
  length-put_digits large 8 (omega arith) (omega arith) 11 most_digits num.num32 []
      (omega (arith, h)),
)
oct_text-length large true num m h =
    let left = (put_fixed large 8 10 num.num32 []).0 in
    let tmp = (put_fixed large 8 10 num.num32 []).1 in
    let d = digit_char large (bit_or left (num.num_high % 2 * 4) % 8) in
    omega (
      arith,
      length-put_digits large 8 (omega arith) (omega arith) 11 most_digits (num.num_high / 2)
          (d ∷ tmp) (omega (arith, h)),
      length-put_fixed large 8 (omega arith) (omega arith) 10 num.num32 [],
    )

decimal_text-length :
    (large wide : Bool) (num : Number) (m : ℕ)
    → Holds wide num m
    → length (decimal_text large wide num) ≤ 20
unfolding decimal_text
decimal_text-length large false num m h = omega (
  arith,
  length-put_digits large 10 (omega arith) (omega arith) 20 most_digits num.num32 []
      (omega (arith, h)),
)
decimal_text-length large true num m h = omega (
  arith,
  length-put_digits large 10 (omega arith) (omega arith) 20 most_digits num.num64 []
      (omega (arith, h)),
)

length-number_text-Holds :
    (f : Flags) (num : Number) (m : ℕ) → Holds f.bits64 num m → length (number_text f num) ≤ 23
unfolding number_text
length-number_text-Holds f num m h =
    let wide = f.bits64 && not (num.num_high == 0) in
    let h' = Holds-narrow f.bits64 num m h in
    let large = f.large_digits in
    elim (Bool-cases (num.num64 == 0)) [
      | inl none ↦ rw (none, number_text) (omega arith)
      | inr some ↦ elim (Bool-cases f.hex) [
        | inl hex ↦
            rw (some, hex, number_text) (ground (arith, hex_text-length large wide num m h'))
        | inr other ↦ elim (Bool-cases f.oct) [
          | inl oct ↦
              rw (some, other, oct, number_text)
                (ground (arith, oct_text-length large wide num m h'))
          | inr dec ↦
              rw (some, other, dec, number_text)
                (omega (arith, decimal_text-length large wide num m h'))
        ]
      ]
    ]

-- Whatever the flags and the argument are, with a prefix or without one: `tmp_buf`, which has 32
-- bytes, takes at most 23 characters.
pub length-number_text :
    (f : Flags) (a : ℕ) → a < width f → length (number_text f (take_sign f (word f a))) ≤ 23
length-number_text f a h =
    length-number_text-Holds f (take_sign f (word f a)) (magnitude f a)
      (take_sign-Taken f a h).holds

-- Zeros go between the sign and the digits, blanks before both.
length-zeros :
    (sign text : Bytes) (w : ℕ)
    → length (sign ++ replicate (w - length text - length sign) b'0' ++ text)
      ≡ max w (length sign + length text)
length-zeros sign text w =
    let pad : Bytes = replicate (w - length text - length sign) b'0' in
    omega (
      arith,
      length-append (sign ++ pad) text,
      length-append sign pad,
      length-replicate {A = ℕ} (w - length text - length sign) b'0',
    )

length-blanks :
    (sign text : Bytes) (w : ℕ)
    → length (replicate (w - length text - length sign) b' ' ++ sign ++ [] ++ text)
      ≡ max w (length sign + length text)
length-blanks sign text w =
    let pad : Bytes = replicate (w - length text - length sign) b' ' in
    omega (
      arith,
      length-append (pad ++ sign ++ []) text,
      length-append (pad ++ sign) [],
      length-append pad sign,
      length-replicate {A = ℕ} (w - length text - length sign) b' ',
    )

-- What is fed is as long as the width asks for, or as the sign and the digits where these are longer.
-- This is for a width that is an `int` and not negative, and not for the mark of a null pointer.
pub length-sprintf_num :
    (f : Flags) (n w : ℕ)
    → w < 0x8000_0000
    → (f.nullmark && n == 0) ≡ false
    → length (sprintf_num n f w)
      ≡ max w (length (sign_text (take_sign f n).sign) + length (number_text f (take_sign f n)))
unfolding sprintf_num
length-sprintf_num f n w h e =
    let num = take_sign f n in
    let small = lt→ltb w 0x8000_0000 h in
    elim (Bool-cases f.zeros) [
      | inl zeros ↦
          rw (e, small, zeros, sprintf_num)
            (length-zeros (sign_text num.sign) (number_text f num) w)
      | inr blanks ↦
          rw (e, small, blanks, sprintf_num)
            (length-blanks (sign_text num.sign) (number_text f num) w)
    ]
