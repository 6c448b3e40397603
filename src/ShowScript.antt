-- ===== src/ShowScript.antt =====
-- cmds/script.c: the command `script`, which prints the built-in script or one from a file. `none` is
-- a loop that has not come to its end. `print` is `lib_printf` of a text as the format. The headings and the
-- built-in script are not printed here.
pub mod Loop
use plo.Common.{
  ℕ, zero, suc, ◌+◌, ◌-◌, Bool, true, false, Option, none, some, List, [], ◌∷◌, length,
  if◌then◌else◌,
}
use plo.Common.CString.{Bytes, str_eq}
use plo.Common.Result.{Result, ok, err}
use plo.Cmd.{arg_line_size}
use plo.Cmd.Prompt.{c_string}
use plo.Call.{magic_size}
use plo.Phfs.{Handler}
use plo.Phfs.Files.{Files}

-- The results are `CMD_EXIT_SUCCESS` and `CMD_EXIT_FAILURE`.
module _ {S : Type 0} (files : Files S) (print : Bytes → S → S) where
  abbrev pub close_exit : ℕ → Handler → S → ℕ × S
  close_exit code h s = (code, (files.close_file h s).1)

  -- What a turn of the loop makes of its read.
  unfoldable pub show_turn :
      (ℕ → S → Option (ℕ × S)) → Handler → ℕ → Result Bytes × S → Option (ℕ × S)
  show_turn again h offs (err e, s) = some (close_exit 1 h s)
  show_turn again h offs (ok [], s) = some (close_exit 0 h (print [] s))
  show_turn again h offs (ok (c ∷ cs), s) =
      again (offs + length (c ∷ cs)) (print (c_string (c ∷ cs)) s)

  unfoldable pub show_loop : ℕ → Handler → ℕ → S → Option (ℕ × S)
  unfolding show_turn
  show_loop zero h offs s = none
  show_loop (suc fuel) h offs s =
      show_turn (show_loop fuel h) h offs (files.read_file h offs (arg_line_size - 1) s)

  unfoldable pub show_checked : ℕ → Bytes → Handler → Result Bytes × S → Option (ℕ × S)
  show_checked fuel magic h (err e, s) = some (close_exit 1 h s)
  show_checked fuel magic h (ok bytes, s) =
      let shown = show_loop fuel h (length bytes) s in
      if str_eq (c_string bytes) magic then shown else some (close_exit 0 h s)

  unfoldable pub show_opened : ℕ → Bytes → Result Handler × S → Option (ℕ × S)
  unfolding show_checked
  show_opened fuel magic (err e, s) = some (1, s)
  show_opened fuel magic (ok h, s) = show_checked fuel magic h (files.read_file h 0 magic_size s)

  -- `cmd_script`, with the fuel for the loop
  unfoldable pub cmd_script : ℕ → List Bytes → S → Option (ℕ × S)
  unfolding show_opened
  cmd_script fuel (name ∷ []) s = some (0, s)
  cmd_script fuel (name ∷ dev ∷ file ∷ magic ∷ []) s =
      show_opened fuel magic (files.open_file dev (some file) 0 s)
  cmd_script fuel argv s = some (1, s)
