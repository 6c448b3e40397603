-- ===== src/Format/Parse.antt =====
-- lib/format.c: `lib_formatParse`. The format is the text before its NUL; `none` stands for an
-- argument that is not there or has another type, which the C code must not be given.
pub mod Pieces
use plo.Common.{
  ℕ, zero, suc, ◌+◌, ◌-◌, ◌*◌, ◌%◌, Bool, true, false, not, ◌&&◌, ◌||◌, Option, none, some, map,
  List, [], ◌∷◌, ◌++◌, length, take, replicate, min, ltb, leb, ◌==◌, if◌then◌else◌,
}
use mathlib.Core.Option
use plo.Common.Bits.{u8, u32}
use plo.Common.CString.{Bytes}
use plo.Format.{Flags, no_flags, get_signed, get_unsigned, sprintf_num}

infixl 5 ◌>>=◌
abbrev ◌>>=◌ : {A B : Type 0} → Option A → (A → Option B) → Option B
◌>>=◌ none f = none
◌>>=◌ (some a) f = f a

-- What `va_arg` gives: a word, or a string that may be NULL.
pub data Arg : Type 0 where
  word : ℕ → Arg
  text : Option Bytes → Arg

-- `flags`, `min_number_len`, and `float_frac_len` where it is not negative.
pub record Spec : Type 0 where
  pub flags : Flags
  pub min_number_len : ℕ
  pub frac_len : Option ℕ

-- The loop over the flags, and the text behind them.
unfoldable pub read_flags : Flags → Bytes → Flags × Bytes
read_flags f [] = (f, [])
read_flags f (c ∷ cs) =
    let space = read_flags (record f { space = true }) cs in
    let minus = read_flags (record f { minus = true }) cs in
    let zeros = read_flags (record f { zeros = true }) cs in
    let plus = read_flags (record f { plus = true }) cs in
    let alternate = read_flags (record f { alternate = true }) cs in
    let star = read_flags (record f { field_width_star = true }) cs in
    if c == b' '
    then space
    else if c == b'-'
    then minus
    else if c == b'0'
    then zeros
    else if c == b'+'
    then plus
    else if c == b'#'
    then alternate
    else if c == b'*'
    then star
    else (f, c ∷ cs)

-- A decimal number.
unfoldable pub read_number : ℕ → Bytes → ℕ × Bytes
read_number n [] = (n, [])
read_number n (c ∷ cs) =
    let rest = read_number (u32 (n * 10 + (c - b'0'))) cs in
    if leb b'0' c && leb c b'9' then rest else (n, c ∷ cs)

unfoldable pub read_fraction : Bytes → Option ℕ × Bytes
unfolding read_number
read_fraction [] = (none, [])
read_fraction (c ∷ cs) =
    if c == b'.' then (some (read_number 0 cs).0, (read_number 0 cs).1) else (none, c ∷ cs)

-- `%l`, `%ll` and `%z`, where `wide` tells whether a `size_t` has 64 bits.
unfoldable pub read_second_long : Flags → Bytes → Flags × Bytes
read_second_long f [] = (f, [])
read_second_long f (c ∷ cs) = if c == b'l' then (record f { bits64 = true }, cs) else (f, c ∷ cs)

unfoldable pub read_long : Flags → Bytes → Flags × Bytes
unfolding read_second_long
read_long f [] = (f, [])
read_long f (c ∷ cs) = if c == b'l' then read_second_long f cs else (f, c ∷ cs)

unfoldable pub read_size : Bool → Flags → Bytes → Flags × Bytes
read_size wide f [] = (f, [])
read_size wide f (c ∷ cs) =
    if c == b'z' then (if wide then record f { bits64 = true } else f, cs) else (f, c ∷ cs)

-- A word of the arguments, where it is asked for.
unfoldable pub take_star : Bool → ℕ → List Arg → Option (ℕ × List Arg)
take_star false n args = some (n, args)
take_star true n [] = none
take_star true n (text t ∷ args) = none
take_star true n (word w ∷ args) = some (u32 w, args)

abbrev pub starts_with : ℕ → Bytes → Bool
starts_with c [] = false
starts_with c (d ∷ ds) = d == c

abbrev pub is_end : Bytes → Bool
is_end [] = true
is_end (c ∷ cs) = false

abbrev pub tail : Bytes → Bytes
tail [] = []
tail (c ∷ cs) = cs

-- An `int` that is negative is no length.
abbrev pub as_length : ℕ → Option ℕ
as_length n = if ltb n 0x8000_0000 then some n else none

-- All that stands between `%` and the conversion's letter.
unfoldable pub read_spec : Bool → Bytes → List Arg → Option ((Spec × Bytes) × List Arg)
unfolding read_flags read_number read_fraction read_long read_size take_star
read_spec wide s args =
    let (f, s1) = read_flags no_flags s in
    let (n, s2) = read_number 0 s1 in
    let (frac, s3) = read_fraction s2 in
    let star = starts_with b'*' s3 in
    let s4 = if star then tail s3 else s3 in
    let (f', s5) = read_long f s4 in
    let (f'', s6) = read_size wide f' s5 in
    let found = do
      (n', args') ← take_star f.field_width_star n args
      (m, args'') ← take_star star 0 args'
      some (
        (
          record {
            flags = f'';
            min_number_len = n';
            frac_len = if star then as_length m else frac;
          },
          s6,
        ),
        args'',
      )
    in if is_end s1
      then some ((record { flags = f; min_number_len = 0; frac_len = none }, []), args)
      else found

-- `min(l, float_frac_len)`, and the padding of a string.
abbrev pub cut_text : Option ℕ → Bytes → Bytes
cut_text none t = t
cut_text (some m) t = take m t

-- A string is cut at the width too, where one is given: `lib_formatMemchr` looks no further.
unfoldable pub put_text : Spec → Bytes → Bytes
put_text spec t =
    let shown =
      cut_text spec.frac_len
        (if ltb 0 spec.min_number_len then take spec.min_number_len t else t) in
    let blanks = replicate (spec.min_number_len - length shown) b' ' in
    if spec.flags.minus then shown ++ blanks else blanks ++ shown

abbrev pub null_text : Bytes
null_text = b'(' ∷ b'n' ∷ b'u' ∷ b'l' ∷ b'l' ∷ b')' ∷ []

-- `%s`, `%c`, and the conversions of numbers, which take one argument each.
abbrev pub put_string : Spec → List Arg → Option (Bytes × List Arg)
put_string spec (text none ∷ args) = some (put_text spec null_text, args)
put_string spec (text (some t) ∷ args) = some (put_text spec t, args)
put_string spec (word w ∷ args) = none
put_string spec [] = none

abbrev pub put_char : List Arg → Option (Bytes × List Arg)
put_char (word w ∷ args) = some (u8 w ∷ [], args)
put_char (text t ∷ args) = none
put_char [] = none

abbrev pub put_number : Flags → ℕ → List Arg → Option (Bytes × List Arg)
put_number f width (word w ∷ args) =
    some (sprintf_num (if f.signed then get_signed f w else get_unsigned f w) f width, args)
put_number f width (text t ∷ args) = none
put_number f width [] = none

-- The `switch` over the letter.
unfoldable pub convert : Bool → Spec → ℕ → List Arg → Option (Bytes × List Arg)
unfolding put_text
convert wide spec c args =
    let f = spec.flags in
    let n = spec.min_number_len in
    if c == b's'
    then put_string spec args
    else if c == b'c'
    then put_char args
    else if c == b'p'
    then put_number
        (record f { hex = true; nullmark = true; zeros = true; bits64 = f.bits64 || wide })
        (if wide then 16 else 8) args
    else if c == b'o'
    then put_number (record f { oct = true }) n args
    else if c == b'X'
    then put_number (record f { large_digits = true; hex = true }) n args
    else if c == b'x'
    then put_number (record f { hex = true }) n args
    else if c == b'u'
    then put_number f n args
    else if c == b'd' || c == b'i'
    then put_number (record f { signed = true }) n args
    else if c == b'%'
    then some (b'%' ∷ [], args)
    else some (b'%' ∷ c ∷ [], args)

-- What is fed before the rest.
abbrev pub and_then :
    (Bytes → List Arg → Option Bytes) → Bytes → Option (Bytes × List Arg) → Option Bytes
and_then again rest none = none
and_then again rest (some (out, args)) = Option.map (λ more. out ++ more) (again rest args)

abbrev pub after_spec :
    Bool → (Bytes → List Arg → Option Bytes) → Option ((Spec × Bytes) × List Arg) → Option Bytes
after_spec wide again none = none
after_spec wide again (some ((spec, []), args)) = some []
after_spec wide again (some ((spec, c ∷ rest), args)) =
    and_then again rest (convert wide spec c args)

-- `lib_formatParse`: what is fed, in order. A turn of the loop takes a character at least.
unfoldable pub parse_loop : Bool → ℕ → Bytes → List Arg → Option Bytes
parse_loop wide zero s args = none
parse_loop wide (suc fuel) [] args = some []
parse_loop wide (suc fuel) (c ∷ []) args = some (c ∷ [])
parse_loop wide (suc fuel) (c ∷ d ∷ s) args =
    if c == b'%'
    then after_spec wide (parse_loop wide fuel) (read_spec wide (d ∷ s) args)
    else Option.map (λ more. c ∷ more) (parse_loop wide fuel (d ∷ s) args)

unfoldable pub format_parse : Bool → Bytes → List Arg → Option Bytes
format_parse wide s args = parse_loop wide (suc (length s)) s args
