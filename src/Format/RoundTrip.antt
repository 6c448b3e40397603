-- ===== src/Format/RoundTrip.antt =====
-- lib/format.c and lib/strtoul.c: a number that is printed is read back.
use plo.Common.{
  ℕ, ◌-◌, ◌<◌, ◌≡◌, ◌≢◌, ◌↔◌, refl, ap, sym, subst, ◌∙◌, arith, Bool, Bool-cases, true, false, ◌||◌,
  ◌==◌, [], ◌∷◌, ◌++◌, get_or, length, append-nil, inl, inr,
}
use plo.Common.Bits.{u32}
use plo.Common.CString.{Bytes}
use plo.Ctype.{isdigit, isalpha, islower, isupper}
use plo.Strtoul.{strtoul, strtol}
use plo.Strtoul.Value.{value, AllDigits}
use plo.Format.{
  Flags, Number, take_sign, hex_text, oct_text, decimal_text, number_text, most_digits, sprintf_num,
  sign_text, mark,
}
use plo.Format.Value.{AllDigits-put_digits}
use plo.Format.Text.{
  Holds, take_sign-Taken, magnitude, is_negative, hex-value, oct-value, decimal-value, word, width,
}
use plo.Format.ReadBack.{put_digits-first, Ends, strtoul-octal, strtoul-decimal, strtoul-hex}

-- The digits of a number of 32 bits.
AllDigits-texts :
    (large : Bool) (num : Number)
    → AllDigits 16 (hex_text large false num)
      × AllDigits 8 (oct_text large false num)
      × AllDigits 10 (decimal_text large false num)
unfolding hex_text oct_text decimal_text
AllDigits-texts large num = (
  AllDigits-put_digits large 16 (omega arith) (omega arith) most_digits num.num32 [] tt,
  AllDigits-put_digits large 8 (omega arith) (omega arith) most_digits num.num32 [] tt,
  AllDigits-put_digits large 10 (omega arith) (omega arith) most_digits num.num32 [] tt,
)

decimal_text-first :
    (large : Bool) (num : Number) (m : ℕ)
    → Holds false num m
    → m ≢ 0
    → (get_or (decimal_text large false num) 0 0 == b'0') ≡ false
unfolding decimal_text
decimal_text-first large num m h ne =
    put_digits-first large 10 most_digits num.num32 [] (omega arith) (omega arith)
      (omega (arith, h)) (λ z. ne (omega (arith, h)))

strtoul-number_text :
    (f : Flags) (num : Number) (m : ℕ) (rest : Bytes)
    → f.bits64 ≡ false
    → f.alternate ≡ (f.hex || f.oct)
    → Holds false num m
    → (num.num64 ≡ 0) ↔ (m ≡ 0)
    → Ends rest
    → strtoul (number_text f num ++ rest) 0 ≡ (m, rest)
unfolding number_text
strtoul-number_text f num m rest b alt h z e =
    let large = f.large_digits in
    let a = AllDigits-texts large num in
    elim (Bool-cases (num.num64 == 0)) [
      | inl none ↦
          rw (none, number_text) (strtoul-octal m [] rest tt e (sym (z.0 (ground arith))) (h.1))
      | inr some ↦ elim (Bool-cases f.hex) [
        | inl hex ↦
            rw (b, some, alt, hex, number_text)
              (strtoul-hex m large (hex_text large false num) rest a.0 e
                (hex-value large false num m h) h.1)
        | inr other ↦ elim (Bool-cases f.oct) [
          | inl oct ↦
              rw (b, some, alt, other, oct, number_text)
                (strtoul-octal m (oct_text large false num) rest a.1 e
                  (oct-value large false num m h) h.1)
          | inr dec ↦
              rw (b, some, other, dec, number_text)
                (strtoul-decimal m (decimal_text large false num) rest a.2
                  (decimal_text-first large num m h (λ z'. absurd (ground arith)))
                  (λ z'. absurd (ground arith)) e (decimal-value large false num m h) h.1)
        ]
      ]
    ]

no_pad : (a b : ℕ) → 0 - a - b ≡ 0
no_pad a b = omega arith

sprintf_num-plain :
    (f : Flags) (n : ℕ)
    → f.nullmark ≡ false
    → sprintf_num n f 0 ≡ sign_text (take_sign f n).sign ++ number_text f (take_sign f n)
unfolding sprintf_num
sprintf_num-plain f n e =
    let num = take_sign f n in
    let pad = no_pad (length (number_text f num)) (length (sign_text num.sign)) in
    elim (Bool-cases f.zeros) [
      | inl zeros ↦
          rw (e, zeros, pad, sprintf_num)
            (ap (λ s. s ++ number_text f num) (append-nil (sign_text num.sign)))
      | inr blanks ↦
          rw (e, blanks, pad, sprintf_num)
            (ap (λ s. s ++ number_text f num) (append-nil (sign_text num.sign)))
    ]

-- The digits of a conversion of 32 bits, without the sign.
strtoul-text :
    (f : Flags) (a : ℕ) (rest : Bytes)
    → f.bits64 ≡ false
    → f.alternate ≡ (f.hex || f.oct)
    → a < width f
    → Ends rest
    → strtoul (number_text f (take_sign f (word f a)) ++ rest) 0 ≡ (magnitude f a, rest)
strtoul-text f a rest b alt h e =
    let t = take_sign-Taken f a h in
    let num = take_sign f (word f a) in
    strtoul-number_text f num (magnitude f a) rest b alt
      (subst (λ w. Holds w num (magnitude f a)) b t.holds) (t.none, t.only) e

-- A text that starts with a decimal digit has no sign.
minus-free :
    (m : ℕ) (ds rest : Bytes)
    → AllDigits 10 ds
    → value 10 0 ds ≡ m
    → m ≢ 0
    → (get_or (ds ++ rest) 0 0 == b'-') ≡ false
unfolding isdigit isalpha islower isupper
minus-free m [] rest a v ne = absurd (omega arith)
minus-free m (d ∷ ds) rest a v ne = ground (arith, a.0)

number_text-minus_free :
    (f : Flags) (num : Number) (m : ℕ) (rest : Bytes)
    → f.bits64 ≡ false
    → f.hex ≡ false
    → f.oct ≡ false
    → Holds false num m
    → (num.num64 ≡ 0) ↔ (m ≡ 0)
    → (get_or (number_text f num ++ rest) 0 0 == b'-') ≡ false
unfolding number_text
number_text-minus_free f num m rest b hex oct h z = elim (Bool-cases (num.num64 == 0)) [
  | inl none ↦ rw (none, number_text) refl
  | inr some ↦
      rw (b, some, hex, oct, number_text)
        (minus-free m (decimal_text f.large_digits false num) rest
          (AllDigits-texts f.large_digits num).2 (decimal-value f.large_digits false num m h)
          (λ z'. absurd (ground arith)))
]

strtol-strtoul :
    (s : Bytes) (base : ℕ) → (get_or s 0 0 == b'-') ≡ false → strtol s base ≡ strtoul s base
unfolding strtol
strtol-strtoul [] base h = refl
strtol-strtoul (c ∷ s) base h = rw (h, strtol) refl

-- The argument is read back from what an unsigned conversion of 32 bits feeds, by `lib_strtoul` with
-- base 0 and up to the end of the number, where FLAG_ALTERNATE is set for hexadecimal and octal and
-- the width is 0. What follows is neither a hexadecimal digit nor the letter x.
pub strtoul-sprintf_num :
    (f : Flags) (a : ℕ) (rest : Bytes)
    → f.signed ≡ false
    → f.bits64 ≡ false
    → f.nullmark ≡ false
    → f.alternate ≡ (f.hex || f.oct)
    → a < 0x1_0000_0000
    → Ends rest
    → strtoul (sprintf_num (word f a) f 0 ++ rest) 0 ≡ (a, rest)
strtoul-sprintf_num f a rest u b n alt h e =
    let wide : a < width f = ground arith in
    let text = number_text f (take_sign f (word f a)) in
    let no_sign : (take_sign f (word f a)).sign ≡ 0 =
      (take_sign-Taken f a wide).signed ∙ ground arith in
    ap (λ s. strtoul (s ++ rest) 0)
      (sprintf_num-plain f (word f a) n ∙ ap (λ s. sign_text s ++ text) no_sign)
    ∙ strtoul-text f a rest b alt wide e
    ∙ ap (λ m. (m, rest)) (ground arith)

-- What `%d` feeds for a word of 32 bits is read back by `lib_strtol`, the sign included.
pub strtol-sprintf_num :
    (f : Flags) (a : ℕ) (rest : Bytes)
    → f.signed ≡ true
    → f.bits64 ≡ false
    → f.nullmark ≡ false
    → f.hex ≡ false
    → f.oct ≡ false
    → f.alternate ≡ false
    → mark f ≡ 0
    → a < 0x1_0000_0000
    → Ends rest
    → strtol (sprintf_num (word f a) f 0 ++ rest) 0 ≡ (a, rest)
unfolding strtol
strtol-sprintf_num f a rest u b n hex oct alt m h e =
    let wide : a < width f = ground arith in
    let num = take_sign f (word f a) in
    let text = number_text f num in
    let t = take_sign-Taken f a wide in
    let back = strtoul-text f a rest b (ground arith) wide e in
    let plain = sprintf_num-plain f (word f a) n in
    elim (Bool-cases (is_negative f a)) [
      | inl neg ↦
          let minus : num.sign ≡ b'-' = t.signed ∙ rw neg refl in
          ap (λ s. strtol (s ++ rest) 0) (plain ∙ ap (λ s. sign_text s ++ text) minus)
          ∙ ap (λ (r : ℕ × Bytes). (u32 (0x1_0000_0000 - r.0), r.1)) back
          ∙ ap (λ m. (m, rest)) (rw (neg, b) (omega arith))
      | inr pos ↦
          let none : num.sign ≡ 0 = t.signed ∙ ground arith in
          ap (λ s. strtol (s ++ rest) 0) (plain ∙ ap (λ s. sign_text s ++ text) none)
          ∙ strtol-strtoul (text ++ rest) 0 (
              number_text-minus_free f num (magnitude f a) rest b hex oct
                (subst (λ w. Holds w num (magnitude f a)) b t.holds) (t.none, t.only))
          ∙ back
          ∙ ap (λ m. (m, rest)) (rw pos refl)
    ]
