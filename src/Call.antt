-- ===== src/Call.antt =====
-- cmds/call.c: the command `call`, which runs a script from a file. `none` is a read through a null
-- pointer or a script that `exec` does not come back from.
pub mod Lines
use plo.Common.{
  ℕ, zero, suc, ◌+◌, ◌-◌, Bool, true, false, not, ◌||◌, Option, none, some, List, [], ◌∷◌, ◌++◌,
  get_elem?, get_or, length, ltb, ◌==◌, if◌then◌else◌,
}
use plo.Common.CString.{Bytes, str_eq}
use plo.Common.Result.{Result, ok, err, eio, enomem, einval, next, next?}
use plo.Cmd.{arg_line_size}
use plo.Cmd.Prompt.{c_string}
use plo.Phfs.{Handler}
use plo.Phfs.Files.{Files}

-- `SIZE_MAGIC_NB`
abbrev pub magic_size : ℕ
magic_size = 8

module _ {S : Type 0} (files : Files S) (exec : Bytes → S → Option (Result (Unit {0}) × S)) where
  abbrev pub close_with : Result ℕ → Handler → S → Option (Result ℕ × S)
  close_with r h s = some (r, (files.close_file h s).1)

  -- A turn of the loop behind its read of a byte. At the end of the file the line is run and the loop
  -- ends, whatever byte was the last. A line that fails ends it without `phfs_close`.
  unfoldable pub call_turn :
      (ℕ → Bytes → S → Option (Result ℕ × S))
      → Handler
      → ℕ
      → Bytes
      → Result Bytes × S
      → Option (Result ℕ × S)
  call_turn again h offs buff (err e, s) = close_with (err e) h s
  call_turn again h offs buff (ok [], s) = next? (λ _. λ s'. close_with (ok 0) h s') (exec buff s)
  call_turn again h offs buff (ok (c ∷ cs), s) =
      if c == 0
      then next? (λ _. λ s'. close_with (ok 0) h s') (exec buff s)
      else if c == b'\n'
      then next? (λ _. λ s'. again (offs + length (c ∷ cs)) [] s') (exec buff s)
      else if length buff == arg_line_size - 1
      then close_with (err enomem) h s
      else again (offs + length (c ∷ cs)) (buff ++ c ∷ []) s

  unfoldable pub call_loop : Handler → ℕ → ℕ → Bytes → S → Option (Result ℕ × S)
  unfolding call_turn
  call_loop h zero offs buff s = none
  call_loop h (suc fuel) offs buff s =
      call_turn (call_loop h fuel) h offs buff (files.read_file h offs 1 s)

  -- Behind the magic number that the file begins with: another one is no error.
  unfoldable pub check_magic : ℕ → Bytes → Handler → Result Bytes × S → Option (Result ℕ × S)
  check_magic fuel magic h (err e, s) = close_with (err e) h s
  check_magic fuel magic h (ok bytes, s) =
      let run = call_loop h fuel magic_size [] s in
      if not (length bytes == magic_size)
      then close_with (err eio) h s
      else if str_eq (c_string bytes) magic
      then run
      else close_with (ok 0) h s

  -- `cmd_call`, with the fuel for the loop
  unfoldable pub cmd_call : ℕ → List Bytes → S → Option (Result ℕ × S)
  unfolding check_magic
  cmd_call fuel (name ∷ dev ∷ file ∷ magic ∷ []) s =
      next (λ h. λ s'. check_magic fuel magic h (files.read_file h 0 magic_size s'))
        (files.open_file dev (some file) 0 s)
  cmd_call fuel argv s = some (err einval, s)
