-- ===== src/Format/Parse/Pieces.antt =====
-- lib/format.c: `lib_formatParse` feeds a format piece by piece.
use plo.Common.{
  ℕ, zero, suc, ◌-◌, ◌≤◌, ◌≡◌, ◌≢◌, refl, ap, ◌∙◌, arith, Bool, true, false, Option, none, some,
  List, [], ◌∷◌, ◌++◌, length, length-append, replicate, ◌==◌, if◌then◌else◌,
}
use mathlib.Core.Option
use plo.Common.Bits.{u8}
use plo.Common.CString.{Bytes}
use plo.Format.{Flags, no_flags, get_signed, get_unsigned, sprintf_num}
use plo.Format.Parse.{
  Arg, word, text, Spec, read_spec, convert, put_text, parse_loop, format_parse, null_text,
}

-- A character of the format, or a conversion without flags and width.
pub data Piece : Type 0 where
  plain : (c : ℕ) → c ≢ b'%' → Piece
  percent : Piece
  string : Option Bytes → Piece
  char : ℕ → Piece
  signed : ℕ → Piece
  unsigned : ℕ → Piece
  hex : ℕ → Piece
  large_hex : ℕ → Piece
  octal : ℕ → Piece

-- What stands in the format for it, what it takes of the arguments, and what is fed for it.
abbrev pub spelling : Piece → Bytes
spelling (plain c ne) = c ∷ []
spelling percent = b'%' ∷ b'%' ∷ []
spelling (string t) = b'%' ∷ b's' ∷ []
spelling (char c) = b'%' ∷ b'c' ∷ []
spelling (signed n) = b'%' ∷ b'd' ∷ []
spelling (unsigned n) = b'%' ∷ b'u' ∷ []
spelling (hex n) = b'%' ∷ b'x' ∷ []
spelling (large_hex n) = b'%' ∷ b'X' ∷ []
spelling (octal n) = b'%' ∷ b'o' ∷ []

abbrev pub arguments : Piece → List Arg
arguments (plain c ne) = []
arguments percent = []
arguments (string t) = text t ∷ []
arguments (char c) = word c ∷ []
arguments (signed n) = word n ∷ []
arguments (unsigned n) = word n ∷ []
arguments (hex n) = word n ∷ []
arguments (large_hex n) = word n ∷ []
arguments (octal n) = word n ∷ []

abbrev pub number : ℕ → Flags → Bytes
number n f = sprintf_num (if f.signed then get_signed f n else get_unsigned f n) f 0

abbrev pub printed : Piece → Bytes
printed (plain c ne) = c ∷ []
printed percent = b'%' ∷ []
printed (string none) = null_text
printed (string (some t)) = t
printed (char c) = u8 c ∷ []
printed (signed n) = number n (record no_flags { signed = true })
printed (unsigned n) = number n no_flags
printed (hex n) = number n (record no_flags { hex = true })
printed (large_hex n) = number n (record no_flags { large_digits = true; hex = true })
printed (octal n) = number n (record no_flags { oct = true })

abbrev pub all_of {ℓ} : {A : Type ℓ} → (Piece → List A) → List Piece → List A
all_of f [] = []
all_of f (p ∷ ps) = f p ++ all_of f ps

spelling_pos : (p : Piece) → 1 ≤ length (spelling p)
spelling_pos (plain c ne) = omega arith
spelling_pos percent = omega arith
spelling_pos (string t) = omega arith
spelling_pos (char c) = omega arith
spelling_pos (signed n) = omega arith
spelling_pos (unsigned n) = omega arith
spelling_pos (hex n) = omega arith
spelling_pos (large_hex n) = omega arith
spelling_pos (octal n) = omega arith

plain_spec : Spec
plain_spec = record { flags = no_flags; min_number_len = 0; frac_len = none }

put_text-plain : (t : Bytes) → put_text plain_spec t ≡ t
unfolding put_text plain_spec
put_text-plain t = ap (λ n. replicate n b' ' ++ t) (none_left (length t))
  where
    none_left : (n : ℕ) → 0 - n ≡ 0
    none_left n = omega arith

module _ (wide : Bool) where
  -- One piece before the rest, with fuel for both.
  parse_loop-piece :
      (p : Piece) (fuel : ℕ) (s : Bytes) (args : List Arg)
      → parse_loop wide (suc (suc fuel)) (spelling p ++ s) (arguments p ++ args)
        ≡ Option.map (λ more. printed p ++ more) (parse_loop wide (suc fuel) s args)
  unfolding parse_loop read_spec convert plain_spec
  parse_loop-piece (plain c ne) fuel [] args = refl
  parse_loop-piece (plain c ne) fuel (d ∷ s) args =
      let other : (c == b'%') ≡ false = ground (arith, ne) in rw (other, parse_loop) refl
  parse_loop-piece percent fuel s args = refl
  parse_loop-piece (string none) fuel s args = refl
  parse_loop-piece (string (some t)) fuel s args =
      ap (λ out. Option.map (λ more. out ++ more) (parse_loop wide (suc fuel) s args))
        (put_text-plain t)
  parse_loop-piece (char c) fuel s args = refl
  parse_loop-piece (signed n) fuel s args = refl
  parse_loop-piece (unsigned n) fuel s args = refl
  parse_loop-piece (hex n) fuel s args = refl
  parse_loop-piece (large_hex n) fuel s args = refl
  parse_loop-piece (octal n) fuel s args = refl

  parse_loop-pieces :
      (ps : List Piece) (fuel : ℕ)
      → length (all_of spelling ps) ≤ fuel
      → parse_loop wide (suc fuel) (all_of spelling ps) (all_of arguments ps)
        ≡ some (all_of printed ps)
  unfolding parse_loop
  parse_loop-pieces [] fuel h = refl
  parse_loop-pieces (p ∷ ps) zero h =
      absurd (omega (arith, length-append (spelling p) (all_of spelling ps), spelling_pos p))
  parse_loop-pieces (p ∷ ps) (suc fuel) h =
      parse_loop-piece p fuel (all_of spelling ps) (all_of arguments ps)
      ∙ ap (Option.map (λ more. printed p ++ more)) (
          parse_loop-pieces ps fuel
            (omega (arith, length-append (spelling p) (all_of spelling ps), spelling_pos p)))

  -- `lib_formatParse` comes to the end of a format that is made of characters other than `%`, of `%%`,
  -- and of the conversions s, c, d, u, x, X and o without flags, width and length, and with their
  -- arguments in order. It feeds the characters, the strings whole, with a text for NULL, and the
  -- numbers as `lib_formatSprintfNum` prints them, and nothing else.
  pub format_parse-pieces :
      (ps : List Piece)
      → format_parse wide (all_of spelling ps) (all_of arguments ps) ≡ some (all_of printed ps)
  unfolding format_parse
  format_parse-pieces ps = parse_loop-pieces ps (length (all_of spelling ps)) (omega arith)
