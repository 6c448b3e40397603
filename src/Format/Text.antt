-- ===== src/Format/Text.antt =====
-- lib/format.c: what `lib_formatSprintfNum` writes to `tmp_buf` has the value of the number, and fits.
use plo.Common.{
  ℕ, ◌+◌, ◌-◌, ◌*◌, ◌/◌, ◌%◌, ◌<◌, ◌≡◌, ap, ◌∙◌, arith, Bool, Bool-cases, true, false, not, ◌&&◌,
  ltb, leb, ◌==◌, if◌then◌else◌, [], ◌∷◌, inl, inr, bit_or,
}
use plo.Common.Bits.{u32, bit_or_sum, bit_or_comm}
use plo.Strtoul.{digit}
use plo.Strtoul.Value.{value}
use plo.Format.{
  Flags, Number, mark, take_sign, digit_char, put_fixed, hex_text, oct_text, decimal_text,
  number_text, most_digits, get_signed, get_unsigned,
}
use plo.Format.Value.{digit-digit_char, value-put_digits, value-put_fixed}

-- The local variables hold the number `m`, with all its 64 bits or with 32 of them.
abbrev pub Holds : Bool → Number → ℕ → Type 0
Holds false num m = (num.num32 ≡ m) × (m < 0x1_0000_0000)
Holds true num m =
    (num.num64 ≡ m)
    × (num.num32 ≡ u32 m)
    × (num.num_high ≡ m / 0x1_0000_0000)
    × (m < 0x1_0000_0000_0000_0000)

-- Where the high half is 0 the low half is enough.
pub Holds-narrow :
    (b : Bool) (num : Number) (m : ℕ) → Holds b num m → Holds (b && not (num.num_high == 0)) num m
Holds-narrow false num m h = h
Holds-narrow true num m h = elim (Bool-cases (num.num_high == 0)) [
  | inl none ↦ rw none (ground (arith, h), ground (arith, h))
  | inr some ↦ rw some h
]

put_fixed-left_hex : (large : Bool) (n : ℕ) → n < 0x1_0000_0000 → (put_fixed large 16 8 n []).0 ≡ 0
unfolding put_fixed
put_fixed-left_hex large n h = omega arith

put_fixed-left_oct : (large : Bool) (n : ℕ) → n < 0x1_0000_0000 → (put_fixed large 8 10 n []).0 < 4
unfolding put_fixed
put_fixed-left_oct large n h = omega arith

middle-digit : (left high : ℕ) → left < 4 → bit_or left (high % 2 * 4) % 8 ≡ high % 2 * 4 + left
middle-digit left high h =
    omega (arith, bit_or_comm left (high % 2 * 4), bit_or_sum 2 (high % 2) left (omega arith))

pub hex-value :
    (large wide : Bool) (num : Number) (m : ℕ)
    → Holds wide num m
    → value 16 0 (hex_text large wide num) ≡ m
unfolding hex_text
hex-value large false num m h =
    value-put_digits large 16 (omega arith) (omega arith) most_digits num.num32 []
      (omega (arith, h))
    ∙ h.0
hex-value large true num m h =
    let left = put_fixed-left_hex large num.num32 (omega (arith, h)) in
    value-put_digits large 16 (omega arith) (omega arith) most_digits num.num_high
      (put_fixed large 16 8 num.num32 []).1 (omega (arith, h))
    ∙ ap (λ w. value 16 w (put_fixed large 16 8 num.num32 []).1) (omega (arith, left))
    ∙ value-put_fixed large 16 (omega arith) (omega arith) 8 num.num32 num.num_high []
    ∙ omega (arith, h)

-- The octal digits: the eleventh of the low half takes a bit of the high one.
pub oct-value :
    (large wide : Bool) (num : Number) (m : ℕ)
    → Holds wide num m
    → value 8 0 (oct_text large wide num) ≡ m
unfolding oct_text
oct-value large false num m h =
    value-put_digits large 8 (omega arith) (omega arith) most_digits num.num32 [] (omega (arith, h))
    ∙ h.0
oct-value large true num m h =
    let left = (put_fixed large 8 10 num.num32 []).0 in
    let tmp = (put_fixed large 8 10 num.num32 []).1 in
    let small : left < 4 = put_fixed-left_oct large num.num32 (omega (arith, h)) in
    let d = bit_or left (num.num_high % 2 * 4) % 8 in
    let d-eq : d ≡ num.num_high % 2 * 4 + left = middle-digit left num.num_high small in
    value-put_digits large 8 (omega arith) (omega arith) most_digits (num.num_high / 2)
      (digit_char large d ∷ tmp) (omega (arith, h))
    ∙ ap (λ w. value 8 w tmp) (omega (arith, digit-digit_char large d (omega arith), d-eq))
    ∙ value-put_fixed large 8 (omega arith) (omega arith) 10 num.num32 (num.num_high * 4) []
    ∙ omega (arith, h)

pub decimal-value :
    (large wide : Bool) (num : Number) (m : ℕ)
    → Holds wide num m
    → value 10 0 (decimal_text large wide num) ≡ m
unfolding decimal_text
decimal-value large false num m h =
    value-put_digits large 10 (omega arith) (omega arith) most_digits num.num32 []
      (omega (arith, h))
    ∙ h.0
decimal-value large true num m h =
    value-put_digits large 10 (omega arith) (omega arith) most_digits num.num64 []
      (omega (arith, h))
    ∙ h.0

abbrev pub base_of : Flags → ℕ
base_of f = if f.hex then 16 else if f.oct then 8 else 10

module _ (f : Flags) (num : Number) (m : ℕ) (h : Holds f.bits64 num m) where
  value-number_text :
      (num.num64 ≡ 0 → m ≡ 0) → f.alternate ≡ false → value (base_of f) 0 (number_text f num) ≡ m
  unfolding number_text digit
  value-number_text z plain =
      let wide = f.bits64 && not (num.num_high == 0) in
      let h' = Holds-narrow f.bits64 num m h in
      elim (Bool-cases (num.num64 == 0)) [
        | inl none ↦ rw (none, number_text) (ground (arith, z))
        | inr some ↦ elim (Bool-cases f.hex) [
          | inl hex ↦ rw (some, hex, plain, number_text) (hex-value f.large_digits wide num m h')
          | inr other ↦ elim (Bool-cases f.oct) [
            | inl oct ↦
                rw (some, other, oct, plain, number_text) (oct-value f.large_digits wide num m h')
            | inr dec ↦
                rw (some, other, dec, number_text) (decimal-value f.large_digits wide num m h')
          ]
        ]
      ]

-- The word that a conversion takes, the number of the values of its type, and the number without
-- its sign for `a` below that.
abbrev pub width : Flags → ℕ
width f = if f.bits64 then 0x1_0000_0000_0000_0000 else 0x1_0000_0000

abbrev pub word : Flags → ℕ → ℕ
word f a = if f.signed then get_signed f a else get_unsigned f a

abbrev pub is_negative : Flags → ℕ → Bool
is_negative f a = f.signed && leb (width f / 2) a

abbrev pub magnitude : Flags → ℕ → ℕ
magnitude f a = if is_negative f a then width f - a else a

abbrev pub sign_of : Flags → ℕ → ℕ
sign_of f a = if is_negative f a then b'-' else if f.signed then mark f else 0

-- The number is held as it is or as 2 ^ 32 or 2 ^ 64 less it; it is 0 only where the argument is.
pub record Taken (f : Flags) (num : Number) (a : ℕ) : Type 0 where
  pub holds : Holds f.bits64 num (magnitude f a)
  pub none : num.num64 ≡ 0 → magnitude f a ≡ 0
  pub only : magnitude f a ≡ 0 → num.num64 ≡ 0
  pub signed : num.sign ≡ sign_of f a

pub take_sign-Taken : (f : Flags) (a : ℕ) → a < width f → Taken f (take_sign f (word f a)) a
unfolding take_sign
take_sign-Taken f a h = elim (Bool-cases f.bits64) [
  | inl wide ↦ elim (Bool-cases f.signed) [
    | inl s ↦ elim (Bool-cases (ltb (a % 0x1_0000_0000_0000_0000 / 0x1_0000_0000) 0x8000_0000)) [
      | inl pos ↦ taken (
          rw (wide, s, pos, take_sign)
            (
              (ground arith, ground arith, ground arith, ground arith),
              ground arith,
              ground arith,
              ground arith,
            ))
      | inr neg ↦ taken (
          rw (wide, s, neg, take_sign)
            (
              (ground arith, ground arith, ground arith, ground arith),
              ground arith,
              ground arith,
              ground arith,
            ))
    ]
    | inr u ↦ taken (
        rw (wide, u, take_sign)
          (
            (ground arith, ground arith, ground arith, ground arith),
            ground arith,
            ground arith,
            ground arith,
          ))
  ]
  | inr narrow ↦ elim (Bool-cases f.signed) [
    | inl s ↦ elim (Bool-cases (ltb (u32 a) 0x8000_0000)) [
      | inl pos ↦ taken (
          rw (narrow, s, pos, take_sign)
            ((ground arith, ground arith), ground arith, ground arith, ground arith))
      | inr neg ↦ taken (
          rw (narrow, s, neg, take_sign)
            ((ground arith, ground arith), ground arith, ground arith, ground arith))
    ]
    | inr u ↦ taken (
        rw (narrow, u, take_sign)
          ((ground arith, ground arith), ground arith, ground arith, ground arith))
  ]
]
  where
    taken :
        {num : Number}
        → Holds f.bits64 num (magnitude f a)
          × (num.num64 ≡ 0 → magnitude f a ≡ 0)
          × (magnitude f a ≡ 0 → num.num64 ≡ 0)
          × (num.sign ≡ sign_of f a)
        → Taken f num a
    taken t = record { holds = t.0; none = t.1; only = t.2; signed = t.3 }

-- What is written to `tmp_buf` for an argument without FLAG_ALTERNATE is the number without its
-- sign, to the base of the conversion, and the sign is `-` for a negative number, otherwise what the
-- flags ask for. This holds for each word of the conversion's type.
pub number_text-magnitude :
    (f : Flags) (a : ℕ)
    → a < width f
    → f.alternate ≡ false
    → (value (base_of f) 0 (number_text f (take_sign f (word f a))) ≡ magnitude f a)
      × ((take_sign f (word f a)).sign ≡ sign_of f a)
number_text-magnitude f a h plain =
    let t = take_sign-Taken f a h in
    (value-number_text f (take_sign f (word f a)) (magnitude f a) t.holds t.none plain, t.signed)
