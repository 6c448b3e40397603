-- ===== src/ShowScript/Loop.antt =====
-- cmds/script.c: the loop that prints a file ends.
use plo.Common.{
  ℕ, zero, suc, ◌+◌, ◌-◌, ◌<◌, ◌≡◌, ap, ◌∙◌, arith, some, [], ◌∷◌, length, length-take, length-drop,
  take, drop,
}
use plo.Common.CString.{Bytes}
use plo.Common.Result.{ok}
use plo.Cmd.{arg_line_size}
use plo.Cmd.Prompt.{c_string}
use plo.Phfs.{Handler}
use plo.Phfs.Files.{Files}
use plo.ShowScript.{show_turn, show_loop}

module _ {S : Type 0} (files : Files S) (print : Bytes → S → S) (h : Handler) (content : Bytes)
    (reads : (offs n : ℕ) (s : S)
      → files.read_file h offs n s ≡ (ok (take n (drop offs content)), s)) where
  show_turn_total :
      (fuel offs : ℕ) (bytes : Bytes) (s : S)
      → files.read_file h offs (arg_line_size - 1) s ≡ (ok bytes, s)
      → ((t : S)
          → 0 < length bytes
          → (s' : S) × (show_loop files print fuel h (offs + length bytes) t ≡ some (0, s')))
      → (s' : S) × (show_loop files print (suc fuel) h offs s ≡ some (0, s'))
  unfolding show_loop
  show_turn_total fuel offs [] s e rest = (
    (files.close_file h (print [] s)).1,
    ap (show_turn files print (show_loop files print fuel h) h offs) e,
  )
  show_turn_total fuel offs (c ∷ cs) s e rest =
      let (s', runs) = rest (print (c_string (c ∷ cs)) s) (omega arith) in
      (s', ap (show_turn files print (show_loop files print fuel h) h offs) e ∙ runs)

  -- The loop of `cmd_script` ends with success on each file, from every offset, when it has more
  -- turns than the file has bytes left: a turn prints a byte at least or is the last one. Reading
  -- gives the bytes of the file and leaves the state as it is.
  pub show_loop_total :
      (fuel offs : ℕ) (s : S)
      → length content - offs < fuel
      → (s' : S) × (show_loop files print fuel h offs s ≡ some (0, s'))
  show_loop_total zero offs s f = absurd (omega arith)
  show_loop_total (suc fuel) offs s f =
      let chunk = take (arg_line_size - 1) (drop offs content) in
      show_turn_total fuel offs chunk s (reads offs (arg_line_size - 1) s) (λ t some_read.
        show_loop_total fuel (offs + length chunk) t (
          omega (
            arith,
            some_read,
            length-take (arg_line_size - 1) (drop offs content),
            length-drop offs content,
          )))
