-- ===== src/Cmd.antt =====
-- cmds/cmd.c: the splitting of a line into arguments, and the run of a script. A text is the list
-- of its bytes in front of its NUL.
pub mod Words
pub mod Arguments
pub mod Prompt
pub mod Run
pub mod Script
use plo.Common.{
  ℕ, zero, suc, ◌-◌, Bool, true, false, ◌&&◌, Option, none, some, List, [], ◌∷◌, leb, ◌+◌,
  if◌then◌else◌, length, get_elem?,
}
use plo.Common.CString.{Bytes, str_eq}
use plo.Common.Result.{Result, ok, err, einval, enomem}
use plo.Ctype.{isspace, isblank, isgraph}
use plo.Getopt.{Opt, initial}

-- `SIZE_CMD_ARG_LINE` and `SIZE_CMD_ARGV`
abbrev pub arg_line_size : ℕ
arg_line_size = 256

abbrev pub argv_size : ℕ
argv_size = 11

-- The inner loop of `cmd_parseArgLine`: the graphic characters that are copied into the `room`
-- bytes left in the buffer, and the text behind them.
unfoldable pub take_word : ℕ → Bytes → Bytes × Bytes
take_word zero s = ([], s)
take_word (suc room) [] = ([], [])
take_word (suc room) (c ∷ cs) =
    let (w, rest) = take_word room cs in if isgraph c then (c ∷ w, rest) else ([], c ∷ cs)

-- One more argument in front.
abbrev pub with_arg :
    Bytes → Option (Result (List Bytes × Bytes)) → Option (Result (List Bytes × Bytes))
with_arg w none = none
with_arg w (some (err e)) = some (err e)
with_arg w (some (ok (ws, rest))) = some (ok (w ∷ ws, rest))

-- The loop of `cmd_parseArgLine`, with `slots = argvsz - argc` and `room = end - buf`: the arguments
-- from here on and the text left. `none` means that the fuel ran out.
unfoldable pub arg_loop : ℕ → ℕ → ℕ → Bytes → Option (Result (List Bytes × Bytes))
unfolding take_word
arg_loop zero slots room s = none
arg_loop (suc fuel) slots room [] = some (ok ([], []))
arg_loop (suc fuel) slots room (c ∷ cs) = elim (isspace c) [
  | true ↦ elim (isblank c) [ true ↦ arg_loop fuel slots room cs | false ↦ some (ok ([], cs)) ]
  | false ↦ elim (leb slots 1) [
    | true ↦ some (err einval)
    | false ↦
        let (w, rest) = take_word room (c ∷ cs) in
        elim (leb room (length w)) [
          | true ↦ some (err enomem)
          | false ↦ with_arg w (arg_loop fuel (slots - 1) (room - (length w + 1)) rest)
        ]
  ]
]

-- The result -1 of `cmd_parseArgLine`, at the end of the text, and all its other results.
pub data Line : Type 0 where
  eof : Line
  line : Result (List Bytes × Bytes) → Line

abbrev pub as_line : Option (Result (List Bytes × Bytes)) → Option Line
as_line none = none
as_line (some r) = some (line r)

-- Each turn of the loop takes a character or a slot.
unfoldable pub parse_arg_line : Bytes → Option Line
unfolding arg_loop
parse_arg_line [] = some eof
parse_arg_line (c ∷ cs) =
    as_line (arg_loop (length (c ∷ cs) + argv_size + 1) argv_size arg_line_size (c ∷ cs))

-- `cmd_t` over the state `S` of the loader, with the globals of lib/getopt.c. What `run` returns
-- is `ok` where it is not negative, and `none` where it does not return.
pub record Cmd (S : Type 0) : Type 0 where
  pub name : Bytes
  pub run : List Bytes → Opt → S → Option (Result ℕ × S)

module _ {S : Type 0} (cmds : List (Cmd S)) where
  -- `cmd_getCmd`
  unfoldable pub get_cmd : ℕ → Option (Cmd S)
  get_cmd id = get_elem? cmds id

-- The loop of `cmd_parse` over the commands, and what it makes of a command's result: the result
-- 0 goes on with the next line.
unfoldable pub find_cmd : {S : Type 0} → List (Cmd S) → Bytes → Option (Cmd S)
find_cmd [] name = none
find_cmd (c ∷ cs) name = let rest = find_cmd cs name in if str_eq name c.name then some c else rest

abbrev pub after_run : {S : Type 0} → Option (Result ℕ × S) → Option (Result (Unit {0}) × S)
after_run none = none
after_run (some (err e, s)) = some (err e, s)
after_run (some (ok zero, s)) = some (ok tt, s)
after_run (some (ok (suc n), s)) = some (err einval, s)

unfoldable pub run_line :
    {S : Type 0} → List (Cmd S) → List Bytes → S → Option (Result (Unit {0}) × S)
unfolding find_cmd
run_line cmds [] s = some (ok tt, s)
run_line cmds (a ∷ argv) s = elim (find_cmd cmds a) [
  | none ↦ some (err einval, s)
  | some c ↦ after_run (c.run (a ∷ argv) initial s)
]

-- What follows a line: an error ends the script.
abbrev pub after_line :
    {S : Type 0}
    → (Bytes → S → Option (Result (Unit {0}) × S))
    → Bytes
    → Option (Result (Unit {0}) × S)
    → Option (Result (Unit {0}) × S)
after_line next rest none = none
after_line next rest (some (err e, s)) = some (err e, s)
after_line next rest (some (ok _, s)) = next rest s

-- `cmd_parse`; each line takes a character of the script at least.
unfoldable pub parse_from :
    {S : Type 0} → List (Cmd S) → ℕ → Bytes → S → Option (Result (Unit {0}) × S)
parse_from cmds zero script s = none
parse_from cmds (suc fuel) script s = elim (parse_arg_line script) [
  | none ↦ none
  | some eof ↦ some (ok tt, s)
  | some (line (err e)) ↦ some (err e, s)
  | some (line (ok (argv, rest))) ↦ after_line (parse_from cmds fuel) rest (run_line cmds argv s)
]

unfoldable pub cmd_parse : {S : Type 0} → List (Cmd S) → Bytes → S → Option (Result (Unit {0}) × S)
cmd_parse cmds script s = parse_from cmds (suc (length script)) script s
