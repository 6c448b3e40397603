-- ===== src/Tests/Output.antt =====
-- lib/format.c on a few numbers, lib/list.c on three elements, and the driver of a memory bank.
use plo.Common.{ℕ, ◌≡◌, ◌≢◌, refl, arith, true, some, List, [], ◌∷◌, ◌++◌, if◌then◌else◌, ◌==◌}
use plo.Common.CString.{Bytes}
use plo.Ctype.{isdigit, isalpha, islower, isupper}
use plo.Strtoul.{strtol}
use plo.Format.{Flags, no_flags, sprintf_num, digit_char}
use plo.Format.Text.{word}
use plo.Format.ReadBack.{Ends}
use plo.Format.RoundTrip.{strtol-sprintf_num}
use plo.Format.Parse.{format_parse, parse_loop, read_spec, convert}
use plo.Format.Parse.Pieces.{
  Piece, plain, percent, string, signed, spelling, arguments, printed, all_of, format_parse-pieces,
}
use plo.LinkedList.{Store, list_add, list_remove}
use plo.LinkedList.Links.{IsList}
use plo.LinkedList.Add.{list_add-IsList}
use plo.LinkedList.Remove.{list_remove-IsList}
use plo.Devs.{Devs, get, slot, dev_write}
use plo.Ramdrv.{ram_device}
use plo.Ramdrv.Stored.{Written, dev_write-Written}

-- `%lld`, `%#x` and `%d`
abbrev long_flags : Flags
long_flags = record no_flags { signed = true; bits64 = true }

abbrev hex_flags : Flags
hex_flags = record no_flags { hex = true; alternate = true }

abbrev int_flags : Flags
int_flags = record no_flags { signed = true }

-- The word of -300.
abbrev minus_300 : ℕ
minus_300 = 0xffff_ffff_ffff_fed4

-- The text goes on with a comma.
comma-Ends : Ends (b',' ∷ [])
unfolding isdigit isalpha islower isupper
comma-Ends = record { stops = refl; not_x = refl }

strtol-sprintf_num_example :
    strtol (sprintf_num (word int_flags 0xffff_fed4) int_flags 0 ++ b',' ∷ []) 0
    ≡ (0xffff_fed4, b',' ∷ [])
strtol-sprintf_num_example =
    strtol-sprintf_num int_flags 0xffff_fed4 (b',' ∷ []) refl refl refl refl refl refl refl
      (omega arith) comma-Ends

sprintf_num_runs :
    sprintf_num (word long_flags minus_300) long_flags 6
    ≡ b' ' ∷ b' ' ∷ b'-' ∷ b'3' ∷ b'0' ∷ b'0' ∷ []
unfolding sprintf_num digit_char
sprintf_num_runs = refl

equals-other : ◌≢◌ {A = ℕ} b'=' b'%'
equals-other e = absurd (omega arith)

-- "%s=%d%%"
abbrev pieces : List Piece
pieces = string (some (b'n' ∷ [])) ∷ plain b'=' equals-other ∷ signed 7 ∷ percent ∷ []

format_parse-pieces_example :
    format_parse true (all_of spelling pieces) (all_of arguments pieces)
    ≡ some (all_of printed pieces)
format_parse-pieces_example = format_parse-pieces true pieces

format_parse_runs :
    format_parse true (all_of spelling pieces) (all_of arguments pieces)
    ≡ some (b'n' ∷ b'=' ∷ b'7' ∷ b'%' ∷ [])
unfolding format_parse parse_loop read_spec convert sprintf_num digit_char
format_parse_runs = refl

-- The elements at 16 and 32, linked both ways.
abbrev two_linked : Store
two_linked = record {
  next = λ p. if p == 16 then 32 else if p == 32 then 16 else 0;
  prev = λ p. if p == 16 then 32 else if p == 32 then 16 else 0;
}

two_linked-IsList : IsList two_linked 16 (16 ∷ 32 ∷ [])
two_linked-IsList = record {
  circle = (refl, (refl, refl, (refl, refl)));
  distinct = (((λ e. absurd (ground arith)), tt), (tt, tt));
  real = ((λ e. absurd (ground arith)), ((λ e. absurd (ground arith)), tt));
}

list_add-IsList_example :
    IsList (list_add two_linked 16 48).0 (list_add two_linked 16 48).1 (16 ∷ 32 ∷ 48 ∷ [])
list_add-IsList_example = list_add-IsList two_linked 16 48 (16 ∷ 32 ∷ []) two_linked-IsList (
  (λ e. absurd (ground arith)),
  ((λ e. absurd (ground arith)), ((λ e. absurd (ground arith)), tt)),
)

list_remove-IsList_example :
    IsList (list_remove two_linked 16 16).0 (list_remove two_linked 16 16).1 (32 ∷ [])
    × ((list_remove two_linked 16 16).0.next 16 ≡ 0)
    × ((list_remove two_linked 16 16).0.prev 16 ≡ 0)
list_remove-IsList_example = list_remove-IsList two_linked 16 [] 16 (32 ∷ []) two_linked-IsList

-- A bank of four bytes at the address 0x1000, in the first place of the table.
abbrev table : Devs Bytes
table = (some (ram_device 0x1000 4) ∷ []) ∷ []

abbrev bank : Bytes
bank = 1 ∷ 2 ∷ 3 ∷ 4 ∷ []

dev_write-Written_example :
    Written table 0 4 bank 1 (8 ∷ 9 ∷ []) (dev_write table 0 0 1 (8 ∷ 9 ∷ []) bank)
unfolding get slot
dev_write-Written_example = dev_write-Written 0x1000 4 table 0 1 (8 ∷ 9 ∷ []) bank refl refl
