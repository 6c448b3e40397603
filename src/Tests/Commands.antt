-- ===== src/Tests/Commands.antt =====
-- cmds/cmd.c on short scripts and keys, and cmds/call.c and cmds/copy.c on a file of a few bytes.
use plo.Common.{
  ℕ, zero, suc, ◌+◌, ◌≤◌, ◌≡◌, refl, ap, sym, ◌∙◌, arith, inl, inr, Option, some, List, [], ◌∷◌,
  ◌++◌, length, take, drop, replicate, min, length-take, length-drop,
}
use plo.Common.CString.{Bytes, str_eq}
use plo.Common.Result.{Result, ok, next?}
use plo.Ctype.{isspace, isblank, isgraph}
use plo.Cmd.{Cmd, line, parse_arg_line, cmd_parse}
use plo.Cmd.Words.{IsText, words, first_line, behind_line, buffer_len, cut, push}
use plo.Cmd.Arguments.{parse_arg_line-words}
use plo.Cmd.Run.{RunsLine}
use plo.Cmd.Script.{cmd_parse_total, cmd_parse-words}
use plo.Cmd.Prompt.{cmd_prompt, prompt_loop, feed, regular, edit, enter, key_up, strlen, c_string}
use plo.Cmd.Prompt.Buffers.{IsValid}
use plo.Cmd.Prompt.Editing.{cmd_prompt-IsValid}
use plo.Phfs.{Phfs, get_handler_id, get_alias_id, find_alias}
use plo.Phfs.Access.{phfs_open, raw_open, read as phfs_read, close as phfs_close}
use plo.Phfs.Files.{Files, phfs_files}
use plo.Phfs.Contents.{IsRawFile, read_file-content}
use plo.Devs.{dev_read, dev_sync, get_ops, get, slot}
use plo.Tests.Disk.{disk, store, no_host, blank, only}
use mathlib.Core.Option.{some-injective}
use plo.Call.{call_loop, cmd_call, close_with, magic_size}
use plo.Call.Lines.{lines_from, run_lines, cmd_call-lines}
use plo.Copy.{copy_size, add, cpphfs2phfs, copy_loop, write_chunk}
use plo.Copy.Copied.{slice, cpphfs2phfs-Held}

-- The line "a b", a line break, and "a".
abbrev script : Bytes
script = b'a' ∷ b' ' ∷ b'b' ∷ b'\n' ∷ b'a' ∷ []

-- The command `a`, which counts its arguments.
abbrev count : List (Cmd ℕ)
count = record { name = b'a' ∷ []; run = λ argv. λ o. λ n. some (ok 0, n + length argv) } ∷ []

script-IsText : IsText script
unfolding isspace isblank isgraph
script-IsText = (inl refl, (inr refl, (inl refl, (inr refl, (inl refl, tt)))))

parse_arg_line-words_example :
    parse_arg_line script ≡ some (line (ok (words (first_line script), behind_line script)))
unfolding isspace isblank isgraph words first_line cut push buffer_len
parse_arg_line-words_example =
    parse_arg_line-words script (λ e. absurd (ground arith)) script-IsText (omega arith)
      (omega arith)

cmd_parse_total_example : (out : Result (Unit {0}) × ℕ) × (cmd_parse count script 0 ≡ some out)
cmd_parse_total_example =
    cmd_parse_total count ((λ argv n. ((ok 0, n + length argv), refl)), tt) script 0

cmd_parse-words_example :
    RunsLine count
      (cmd_parse count (behind_line script))
      (words (first_line script))
      0
      (cmd_parse count script 0)
unfolding isspace isblank isgraph words first_line cut push buffer_len
cmd_parse-words_example =
    cmd_parse-words count script 0 (λ e. absurd (ground arith)) script-IsText (omega arith)
      (omega arith)

-- Eight buffers of 256 bytes, with no NUL in them.
abbrev raw_line : Bytes
raw_line = replicate 256 b'x'

abbrev raw_lines : List Bytes
raw_lines =
    raw_line ∷ raw_line ∷ raw_line ∷ raw_line ∷ raw_line ∷ raw_line ∷ raw_line ∷ raw_line ∷ []

abbrev note : Bytes → List Bytes → List Bytes
note l ls = l ∷ ls

-- "ab", a backspace, "c", the end of the line, the key up, and the end of the line again.
abbrev keys : Bytes
keys = b'a' ∷ b'b' ∷ 127 ∷ b'c' ∷ b'\r' ∷ b'\n' ∷ 27 ∷ 91 ∷ b'A' ∷ b'\r' ∷ []

cmd_prompt_runs :
    (cmd_prompt note raw_lines keys []).1 ≡ (b'a' ∷ b'c' ∷ []) ∷ (b'a' ∷ b'c' ∷ []) ∷ []
unfolding cmd_prompt prompt_loop feed regular edit enter key_up strlen c_string
cmd_prompt_runs = refl

cmd_prompt-IsValid_example : IsValid (cmd_prompt note raw_lines keys []).0
cmd_prompt-IsValid_example =
    cmd_prompt-IsValid note raw_lines keys [] refl
      (refl, (refl, (refl, (refl, (refl, (refl, (refl, (refl, tt))))))))

-- A file with the magic number "MAGIC000" and the lines "a" and "bc".
abbrev magic : Bytes
magic = b'M' ∷ b'A' ∷ b'G' ∷ b'I' ∷ b'C' ∷ b'0' ∷ b'0' ∷ b'0' ∷ []

abbrev file_bytes : Bytes
file_bytes = b'M' ∷ b'A' ∷ b'G' ∷ b'I' ∷ b'C' ∷ b'0' ∷ b'0' ∷ b'0' ∷ b'a' ∷ b'\n' ∷ b'b' ∷ b'c' ∷ []

-- A device of this file alone; the state of the hardware is here the lines that have been run.
abbrev read_bytes : ℕ → ℕ → List Bytes → Result Bytes × List Bytes
read_bytes offs len s = (ok (take len (drop offs file_bytes)), s)

abbrev one_file : Files (Phfs × List Bytes)
one_file = phfs_files 32 (disk read_bytes) no_host (blank, blank)

abbrev note_line : Bytes → Phfs × List Bytes → Option (Result (Unit {0}) × (Phfs × List Bytes))
note_line l s = some (ok tt, (s.0, l ∷ s.1))

-- The states with the tables of this device and this file.
abbrev Mounted : Phfs × List Bytes → Type 0
Mounted s = (s.0 ≡ store 0 12) × Unit {0}

one_file_raw : IsRawFile 32 (store 0 12) only
one_file_raw = record {
  prot_raw = refl;
  device_in = omega arith;
  file_in = omega arith;
  fits = omega arith;
}

one_file-reads :
    (offs n : ℕ) (s : Phfs × List Bytes)
    → Mounted s
    → offs ≤ length file_bytes
    → one_file.read_file only offs n s ≡ (ok (take n (drop offs file_bytes)), s)
unfolding dev_read get_ops get slot
one_file-reads =
    read_file-content 32 (disk read_bytes) no_host (blank, blank) (store 0 12) only one_file_raw
      file_bytes refl (λ _. Unit {0})
      (λ offs n t here inside.
        ap (λ (o : ℕ). (ok (take n (drop o file_bytes)), t)) {x = 0 + offs} {y = offs}
          (omega arith))

note_line-Mounted :
    (l : Bytes) (s s' : Phfs × List Bytes)
    → Mounted s
    → note_line l s ≡ some (ok tt, s')
    → Mounted s'
note_line-Mounted l s s' here ran = (
  sym (ap (λ (r : Result (Unit {0}) × (Phfs × List Bytes)). r.1.0) (some-injective _ _ ran))
      ∙ here.0,
  tt,
)

one_file_open :
    one_file.open_file (b'd' ∷ []) (some (b'f' ∷ [])) 0 (store 0 12, [])
    ≡ (ok only, (store 0 12, []))
unfolding phfs_files phfs_open raw_open get_handler_id get_alias_id find_alias str_eq
one_file_open = refl

abbrev call_args : List Bytes
call_args = (b'c' ∷ []) ∷ (b'd' ∷ []) ∷ (b'f' ∷ []) ∷ magic ∷ []

cmd_call-lines_example :
    cmd_call one_file note_line 100 call_args (store 0 12, [])
    ≡ next?
        (λ _. λ s''. close_with one_file note_line (ok 0) only s'')
        (run_lines note_line (lines_from [] (drop magic_size file_bytes)) (store 0 12, []))
unfolding str_eq c_string lines_from
cmd_call-lines_example =
    cmd_call-lines one_file note_line only file_bytes Mounted one_file-reads note_line-Mounted 100
      (b'c' ∷ []) (b'd' ∷ []) (b'f' ∷ []) magic (store 0 12, []) (store 0 12, []) one_file_open
      (refl, tt) (omega arith) refl (omega arith) (omega arith, (omega arith, tt))

cmd_call_runs :
    cmd_call one_file note_line 100 call_args (store 0 12, [])
    ≡ some (ok 0, (store 0 12, (b'b' ∷ b'c' ∷ []) ∷ (b'a' ∷ []) ∷ []))
unfolding cmd_call call_loop str_eq c_string phfs_files phfs_open raw_open get_handler_id
    get_alias_id find_alias phfs_read phfs_close dev_read dev_sync get_ops get slot
cmd_call_runs = refl

-- A source of these bytes, and a destination that takes them at its end.
abbrev read_source : ℕ → ℕ → Bytes → Result Bytes × Bytes
read_source offs n s = (ok (take n (drop offs file_bytes)), s)

abbrev write_end : ℕ → Bytes → Bytes → Result ℕ × Bytes
write_end offs bytes s = (ok (length bytes), s ++ bytes)

take-nil : (m : ℕ) → take {A = ℕ} m [] ≡ []
take-nil zero = refl
take-nil (suc m) = refl

take-itself : (n : ℕ) (xs : Bytes) → take n xs ≡ take (length (take n xs)) xs
take-itself zero xs = refl
take-itself (suc n) [] = refl
take-itself (suc n) (x ∷ xs) = ap (λ r. x ∷ r) (take-itself n xs)

-- A slice behind the front makes a longer front.
take-slice :
    (k n : ℕ) (xs : Bytes) → take k xs ++ slice xs k n ≡ take (k + length (slice xs k n)) xs
take-slice zero n xs = take-itself n xs ∙ ap (λ m. take m xs) (omega arith)
take-slice (suc k) n [] = take-nil n ∙ sym (take-nil (suc k + length (slice [] (suc k) n)))
take-slice (suc k) n (x ∷ xs) =
    ap (λ r. x ∷ r) (take-slice k n xs)
    ∙ ap (λ m. take m (x ∷ xs)) (one_more (length (slice xs k n)))
  where
    one_more : (m : ℕ) → suc (k + m) ≡ suc k + m
    one_more m = omega arith

-- The first bytes are there, and there are no more places than bytes.
abbrev Front : ℕ → Bytes → Type 0
Front k s = (s ≡ take k file_bytes) × (k ≤ length file_bytes)

reads_on :
    (k n : ℕ) (s : Bytes)
    → Front k s
    → (s' : Bytes) × (read_source (add 32 0 k) n s ≡ (ok (slice file_bytes k n), s')) × Front k s'
reads_on k n s h = (s, ap (λ a. (ok (slice file_bytes a n), s)) (omega (arith, h.1)), h)

writes_on :
    (k n : ℕ) (s : Bytes)
    → Front k s
    → (s' : Bytes) × (write_end (add 32 0 k) (slice file_bytes k n) s
        ≡ (ok (length (slice file_bytes k n)), s'))
      × Front (k + length (slice file_bytes k n)) s'
writes_on k n s h = (
  s ++ slice file_bytes k n,
  refl,
  (
    ap (λ r. r ++ slice file_bytes k n) h.0 ∙ take-slice k n file_bytes,
    omega (arith, h.1, length-take n (drop k file_bytes), length-drop k file_bytes),
  ),
)

cpphfs2phfs-Held_example :
    (s' : Bytes) × (cpphfs2phfs 32 read_source write_end 0 0 0 5 []
      ≡ some (ok (min (copy_size 32 0 5) (length file_bytes)), s'))
    × Front (min (copy_size 32 0 5) (length file_bytes)) s'
cpphfs2phfs-Held_example =
    cpphfs2phfs-Held 32 read_source write_end 0 0 file_bytes Front reads_on writes_on 0 5 []
      (refl, omega arith) (omega arith) (omega arith)

cpphfs2phfs_runs : cpphfs2phfs 32 read_source write_end 0 0 0 5 [] ≡ some (ok 5, take 5 file_bytes)
unfolding cpphfs2phfs copy_loop write_chunk
cpphfs2phfs_runs = refl

-- The texts that are printed, the last one first.
abbrev keep_text : Bytes → List Bytes → List Bytes
keep_text t ls = t ∷ ls
