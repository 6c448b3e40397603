-- ===== src/Cmd/Script.antt =====
-- cmds/cmd.c: `cmd_parse` comes to the end of every script, and runs its lines in order.
use plo.Common.{
  ℕ, zero, suc, ◌+◌, ◌-◌, ◌≤◌, ◌<◌, ◌≡◌, ◌≢◌, refl, ap, sym, subst, ◌∙◌, arith, Bool-cases, Option,
  none, some, List, [], ◌∷◌, length, leb, inl, inr, ◌⊎◌,
}
use plo.Common.CString.{Bytes}
use plo.Common.Result.{Result, ok, err, einval, enomem}
use plo.Ctype.{isspace, isblank, isgraph}
use plo.Cmd.{
  take_word, with_arg, arg_loop, line, eof, as_line, parse_arg_line, argv_size, arg_line_size, Cmd,
  run_line, after_line, parse_from, cmd_parse,
}
use plo.Cmd.Words.{first_line, behind_line, words, IsText, buffer_len}
use plo.Cmd.Arguments.{parse_arg_line-words}
use plo.Cmd.Run.{
  AllReturn, RunsLine, find_cmd-cases, find_cmd-returns, after_run_total, run_line-RunsLine,
}

length-take_word :
    (room : ℕ) (s : Bytes) → length (take_word room s).1 + length (take_word room s).0 ≡ length s
unfolding take_word
length-take_word zero s = omega arith
length-take_word (suc room) [] = refl
length-take_word (suc room) (c ∷ cs) = elim (Bool-cases (isgraph c)) [
  | inl g ↦ ground (arith, g, length-take_word room cs)
  | inr g ↦ ground (arith, g)
]

-- The text left is shorter than one of length `n`, unless that is empty.
abbrev Shorter : ℕ → Result (List Bytes × Bytes) → Type 0
Shorter n (err e) = Unit
Shorter n (ok (ws, rest)) = length rest ≤ n - 1

Shorter-suc : (n : ℕ) (r : Result (List Bytes × Bytes)) → Shorter n r → Shorter (suc n) r
Shorter-suc n (err e) v = tt
Shorter-suc n (ok (ws, rest)) v = omega arith

with_arg-Shorter :
    (n k : ℕ) (w : Bytes) (r : Result (List Bytes × Bytes))
    (o : Option (Result (List Bytes × Bytes)))
    → o ≡ some r
    → Shorter k r
    → k ≤ n
    → (r' : Result (List Bytes × Bytes)) × (with_arg w o ≡ some r') × Shorter n r'
with_arg-Shorter n k w (err e) o h v l = (err e, ap (with_arg w) h, tt)
with_arg-Shorter n k w (ok (ws, rest)) o h v l = (ok (w ∷ ws, rest), ap (with_arg w) h, omega arith)

arg_loop-Shorter :
    (fuel slots room : ℕ) (s : Bytes)
    → length s + slots < fuel
    → (r : Result (List Bytes × Bytes)) × (arg_loop fuel slots room s ≡ some r)
      × Shorter (length s) r
unfolding arg_loop
arg_loop-Shorter zero slots room s h = absurd (omega arith)
arg_loop-Shorter (suc fuel) slots room [] h = (ok ([], []), refl, omega arith)
arg_loop-Shorter (suc fuel) slots room (c ∷ cs) h = elim (Bool-cases (isspace c)) [
  | inl space ↦ elim (Bool-cases (isblank c)) [
    | inl blank ↦
        let (r, e, v) = arg_loop-Shorter fuel slots room cs (omega arith) in
        (r, rw (space, blank, arg_loop) e, Shorter-suc (length cs) r v)
    | inr break ↦ (ok ([], cs), rw (space, break, arg_loop) refl, omega arith)
  ]
  | inr word ↦ elim (Bool-cases (leb slots 1)) [
    | inl many ↦ (err einval, rw (word, many, arg_loop) refl, tt)
    | inr few ↦
        let w = (take_word room (c ∷ cs)).0 in
        let rest = (take_word room (c ∷ cs)).1 in
        elim (Bool-cases (leb room (length w))) [
          | inl long ↦ (err enomem, rw (word, few, long, arg_loop) refl, tt)
          | inr fits ↦
              let shorter = length-take_word room (c ∷ cs) in
              let (r, e, v) =
                arg_loop-Shorter fuel (slots - 1) (room - (length w + 1)) rest
                  (ground (arith, few, shorter, h)) in
              let (r', e', v') =
                with_arg-Shorter (suc (length cs)) (length rest) w r _ e v
                  (omega (arith, shorter)) in
              (r', rw (word, few, fits, arg_loop) e', v')
        ]
  ]
]

-- What a call of `cmd_parseArgLine` returns on a text that is not empty: an error, or arguments
-- and a shorter text.
LineCases : ℕ → Bytes → Type 0
LineCases n s =
    ((e : ℕ) × (parse_arg_line s ≡ some (line (err e))))
    ⊎ ((argv : List Bytes) × (rest : Bytes) × (parse_arg_line s ≡ some (line (ok (argv, rest))))
        × (length rest ≤ n))

line_cases :
    (n : ℕ) (s : Bytes) (r : Result (List Bytes × Bytes))
    → parse_arg_line s ≡ some (line r)
    → Shorter (suc n) r
    → LineCases n s
unfolding LineCases
line_cases n s (err e) h v = inl (e, h)
line_cases n s (ok (argv, rest)) h v = inr (argv, rest, h, omega arith)

parse_arg_line-cases : (c : ℕ) (cs : Bytes) → LineCases (length cs) (c ∷ cs)
unfolding parse_arg_line
parse_arg_line-cases c cs =
    let (r, e, v) =
      arg_loop-Shorter (length (c ∷ cs) + argv_size + 1) argv_size arg_line_size (c ∷ cs)
        (omega arith) in
    line_cases (length cs) (c ∷ cs) r (ap as_line e) v

length-behind_line : (s : Bytes) → length (behind_line s) ≤ length s - 1
unfolding behind_line
length-behind_line [] = omega arith
length-behind_line (c ∷ cs) = ground (arith, length-behind_line cs)

parse_arg_line_empty : parse_arg_line [] ≡ some eof
unfolding parse_arg_line
parse_arg_line_empty = refl

module _ {S : Type 0} (cmds : List (Cmd S)) where
  parse_from_line :
      (fuel : ℕ) (script rest : Bytes) (argv : List Bytes) (s : S)
      → parse_arg_line script ≡ some (line (ok (argv, rest)))
      → parse_from cmds (suc fuel) script s
        ≡ after_line (parse_from cmds fuel) rest (run_line cmds argv s)
  unfolding parse_from
  parse_from_line fuel script rest argv s e = rw (e, parse_from) refl

  parse_from_error :
      (fuel : ℕ) (script : Bytes) (e : ℕ) (s : S)
      → parse_arg_line script ≡ some (line (err e))
      → parse_from cmds (suc fuel) script s ≡ some (err e, s)
  unfolding parse_from
  parse_from_error fuel script e s h = rw (h, parse_from) refl

  parse_from_empty : (fuel : ℕ) (s : S) → parse_from cmds (suc fuel) [] s ≡ some (ok tt, s)
  unfolding parse_from
  parse_from_empty fuel s = rw (parse_arg_line_empty, parse_from) refl

  after_line_total :
      (next : Bytes → S → Option (Result (Unit {0}) × S)) (rest : Bytes)
      (out : Option (Result (Unit {0}) × S)) (r : Result (Unit {0}) × S)
      → out ≡ some r
      → ((s : S) → (o : Result (Unit {0}) × S) × (next rest s ≡ some o))
      → (o : Result (Unit {0}) × S) × (after_line next rest out ≡ some o)
  after_line_total next rest out (ok u, s) e h = let (o, runs) = h s in (o, rw e runs)
  after_line_total next rest out (err c, s) e h = ((err c, s), rw e refl)

  run_line_total :
      AllReturn cmds
      → (argv : List Bytes) (s : S) → (o : Result (Unit {0}) × S) × (run_line cmds argv s ≡ some o)
  unfolding run_line
  run_line_total all [] s = ((ok tt, s), refl)
  run_line_total all (a ∷ argv) s = elim (find_cmd-cases cmds a) [
    | inl (missing, _) ↦ ((err einval, s), rw (missing, run_line) refl)
    | inr (c, found, named) ↦
        let (r, runs) = find_cmd-returns cmds a c all found (a ∷ argv) s in
        let (o, e) = after_run_total r in (o, rw (found, runs, run_line) e)
  ]

  parse_from_total :
      AllReturn cmds
      → (fuel : ℕ) (script : Bytes) (s : S) → length script < fuel
      → (out : Result (Unit {0}) × S) × (parse_from cmds fuel script s ≡ some out)
  unfolding LineCases
  parse_from_total all zero script s h = absurd (omega arith)
  parse_from_total all (suc fuel) [] s h = ((ok tt, s), parse_from_empty fuel s)
  parse_from_total all (suc fuel) (c ∷ cs) s h = elim (parse_arg_line-cases c cs) [
    | inl (e, runs) ↦ ((err e, s), parse_from_error fuel (c ∷ cs) e s runs)
    | inr (argv, rest, runs, shorter) ↦
        let (o, e) =
          after_line_total (parse_from cmds fuel) rest (run_line cmds argv s)
            (run_line_total all argv s).0 (run_line_total all argv s).1
            (λ s'. parse_from_total all fuel rest s' (omega (arith, shorter))) in
        (o, parse_from_line fuel (c ∷ cs) rest argv s runs ∙ e)
  ]

  -- `cmd_parse` comes to an end on every script and from every state, where each command returns for
  -- all arguments and from all states.
  pub cmd_parse_total :
      AllReturn cmds
      → (script : Bytes) (s : S)
      → (out : Result (Unit {0}) × S) × (cmd_parse cmds script s ≡ some out)
  unfolding cmd_parse
  cmd_parse_total all script s = parse_from_total all (suc (length script)) script s (omega arith)

  after_line_same :
      (f g : Bytes → S → Option (Result (Unit {0}) × S)) (rest : Bytes)
      (out : Option (Result (Unit {0}) × S))
      → ((s : S) → f rest s ≡ g rest s)
      → after_line f rest out ≡ after_line g rest out
  after_line_same f g rest none h = refl
  after_line_same f g rest (some (ok u, s)) h = h s
  after_line_same f g rest (some (err e, s)) h = refl

  -- More fuel than the script has characters changes nothing.
  parse_from_fuel :
      (fuel fuel' : ℕ) (script : Bytes) (s : S)
      → length script < fuel
      → length script < fuel'
      → parse_from cmds fuel script s ≡ parse_from cmds fuel' script s
  unfolding LineCases
  parse_from_fuel zero fuel' script s h h' = absurd (omega arith)
  parse_from_fuel (suc fuel) zero script s h h' = absurd (omega arith)
  parse_from_fuel (suc fuel) (suc fuel') [] s h h' =
      parse_from_empty fuel s ∙ sym (parse_from_empty fuel' s)
  parse_from_fuel (suc fuel) (suc fuel') (c ∷ cs) s h h' = elim (parse_arg_line-cases c cs) [
    | inl (e, runs) ↦
        parse_from_error fuel (c ∷ cs) e s runs ∙ sym (parse_from_error fuel' (c ∷ cs) e s runs)
    | inr (argv, rest, runs, shorter) ↦
        parse_from_line fuel (c ∷ cs) rest argv s runs
        ∙ after_line_same (parse_from cmds fuel) (parse_from cmds fuel') rest (run_line cmds argv s)
            (λ s'.
              parse_from_fuel fuel fuel' rest s' (omega (arith, shorter)) (omega (arith, shorter)))
        ∙ sym (parse_from_line fuel' (c ∷ cs) rest argv s runs)
  ]

  -- `cmd_parse` of a script of graphic characters and white space, not empty, whose first line has
  -- at most 10 words that fit the buffer: it runs the words of that line, as `RunsLine` says, and goes
  -- on as `cmd_parse` of what follows the line break.
  pub cmd_parse-words :
      (script : Bytes) (s : S)
      → script ≢ []
      → IsText script
      → length (words (first_line script)) < argv_size
      → buffer_len (words (first_line script)) ≤ arg_line_size
      → RunsLine cmds
          (cmd_parse cmds (behind_line script))
          (words (first_line script))
          s
          (cmd_parse cmds script s)
  unfolding cmd_parse
  cmd_parse-words [] s ne v l u = absurd (ne refl)
  cmd_parse-words (c ∷ cs) s ne v l u =
      let rest = behind_line (c ∷ cs) in
      let out = run_line cmds (words (first_line (c ∷ cs))) s in
      let fuel = suc (length cs) in
      subst (RunsLine cmds (cmd_parse cmds rest) (words (first_line (c ∷ cs))) s)
        (sym (
          parse_from_line fuel (c ∷ cs) rest (words (first_line (c ∷ cs))) s
            (parse_arg_line-words (c ∷ cs) ne v l u)
          ∙ after_line_same (parse_from cmds fuel) (cmd_parse cmds) rest out (λ s'.
            parse_from_fuel fuel (suc (length rest)) rest s'
              (omega (arith, length-behind_line (c ∷ cs))) (omega arith))))
        (run_line-RunsLine cmds (cmd_parse cmds) rest (words (first_line (c ∷ cs))) s)
