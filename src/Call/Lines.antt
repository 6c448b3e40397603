-- ===== src/Call/Lines.antt =====
-- cmds/call.c: a script in a file is run line by line.
use plo.Common.{
  ℕ, zero, suc, ◌+◌, ◌-◌, ◌≤◌, ◌<◌, ◌≡◌, refl, ap, ◌∙◌, arith, Bool-cases, true, false, Option,
  none, some, List, [], ◌∷◌, ◌++◌, length, length-append, length-take, length-drop, take, drop,
  ◌==◌, if◌then◌else◌, inl, inr,
}
use plo.Common.CString.{Bytes, str_eq}
use plo.Common.Result.{Result, ok, err, next, next?}
use plo.Cmd.{arg_line_size}
use plo.Cmd.Prompt.{c_string}
use plo.Phfs.{Handler}
use plo.Phfs.Files.{Files}
use plo.Call.{call_loop, call_turn, close_with, check_magic, cmd_call, magic_size}

-- The lines of a text, up to its end or a NUL, where the first one began with `line`.
unfoldable pub lines_from : Bytes → Bytes → List Bytes
lines_from line [] = line ∷ []
lines_from line (c ∷ cs) =
    let on = lines_from (line ++ c ∷ []) cs in
    let rest = lines_from [] cs in
    if c == 0 then line ∷ [] else if c == b'\n' then line ∷ rest else on

-- Each line and its NUL fit the buffer.
abbrev pub AllShort : List Bytes → Type 0
AllShort [] = Unit
AllShort (l ∷ ls) = (length l < arg_line_size) × AllShort ls

-- The lines in turn, up to one that fails.
unfoldable pub run_lines :
    {S : Type 0}
    → (Bytes → S → Option (Result (Unit {0}) × S))
    → List Bytes
    → S
    → Option (Result (Unit {0}) × S)
run_lines exec [] s = some (ok tt, s)
run_lines exec (l ∷ ls) s = next? (λ _. λ s'. run_lines exec ls s') (exec l s)

next?-assoc :
    {S B C : Type 0} (o : Option (Result (Unit {0}) × S)) (f : S → Option (Result C × S))
    (g : S → Option (Result B × S)) (k : S → Option (Result C × S))
    → ((s : S) → o ≡ some (ok tt, s) → f s ≡ next? (λ _. λ s'. k s') (g s))
    → next? (λ _. λ s'. f s') o ≡ next? (λ _. λ s'. k s') (next? (λ _. λ s'. g s') o)
next?-assoc none f g k h = refl
next?-assoc (some (err e, s)) f g k h = refl
next?-assoc (some (ok tt, s)) f g k h = h s refl

drop-suc : (xs : Bytes) (n c : ℕ) (cs : Bytes) → drop n xs ≡ c ∷ cs → drop (suc n) xs ≡ cs
drop-suc [] zero c cs h = absurd (ground arith)
drop-suc [] (suc n) c cs h = absurd (ground arith)
drop-suc (x ∷ xs) zero c cs h = ground arith
drop-suc (x ∷ xs) (suc n) c cs h = drop-suc xs n c cs h

lines_from-first : (line cs : Bytes) → AllShort (lines_from line cs) → length line < arg_line_size
unfolding lines_from
lines_from-first line [] h = h.0
lines_from-first line (c ∷ cs) h = elim (Bool-cases (c == 0)) [
  | inl nul ↦ (rw (nul, lines_from) at h).0
  | inr inside ↦ elim (Bool-cases (c == b'\n')) [
    | inl break ↦ (rw (inside, break, lines_from) at h).0
    | inr char ↦ omega (
      arith,
      lines_from-first (line ++ c ∷ []) cs (rw (inside, char, lines_from) at h),
      length-append line (c ∷ []),
    )
  ]
]

module _ {S : Type 0} (files : Files S) (exec : Bytes → S → Option (Result (Unit {0}) × S))
    (h : Handler) (content : Bytes) (P : S → Type 0)
    (reads : (offs n : ℕ) (s : S)
      → P s
      → offs ≤ length content
      → files.read_file h offs n s ≡ (ok (take n (drop offs content)), s))
    (keeps : (line : Bytes) (s s' : S) → P s → exec line s ≡ some (ok tt, s') → P s') where
  call_loop-lines :
      (fuel offs : ℕ) (line rest : Bytes) (s : S)
      → P s
      → drop offs content ≡ rest
      → offs ≤ length content
      → length rest < fuel
      → AllShort (lines_from line rest)
      → call_loop files exec h fuel offs line s
        ≡ next?
            (λ _. λ s'. close_with files exec (ok 0) h s')
            (run_lines exec (lines_from line rest) s)
  unfolding call_loop run_lines lines_from
  call_loop-lines zero offs line rest s here e le f a = absurd (omega arith)
  call_loop-lines (suc fuel) offs line [] s here e le f a =
      let close : S → Option (Result ℕ × S) = λ s'. close_with files exec (ok 0) h s' in
      ap (call_turn files exec (call_loop files exec h fuel) h offs line)
        (reads offs 1 s here le ∙ ap (λ r. (ok (take 1 r), s)) e)
      ∙ next?-assoc (exec line s) close (λ s'. some (ok tt, s')) close (λ s' ran. refl)
  call_loop-lines (suc fuel) offs line (x ∷ rest) s here e le f a =
      let close : S → Option (Result ℕ × S) = λ s'. close_with files exec (ok 0) h s' in
      let one_on : offs + 1 ≡ suc offs = omega arith in
      let later : drop (offs + 1) content ≡ rest =
        ap (λ n. drop n content) one_on ∙ drop-suc content offs x rest e in
      let inside_file : offs + 1 ≤ length content =
        omega (arith, length-drop offs content, ap (λ (xs : Bytes). length xs) e) in
      ap (call_turn files exec (call_loop files exec h fuel) h offs line)
        (reads offs 1 s here le ∙ ap (λ r. (ok (take 1 r), s)) e)
      ∙ (elim (Bool-cases (x == 0)) [
        | inl nul ↦
            rw (nul, call_turn, lines_from)
              (next?-assoc (exec line s) close (λ s'. some (ok tt, s')) close (λ s' ran. refl))
        | inr inside ↦ elim (Bool-cases (x == b'\n')) [
          | inl break ↦
              rw (inside, break, call_turn, lines_from)
                (next?-assoc (exec line s) (call_loop files exec h fuel (offs + 1) [])
                  (run_lines exec (lines_from [] rest)) close
                  (λ s' ran.
                    call_loop-lines fuel (offs + 1) [] rest s' (keeps line s s' here ran) later
                      inside_file (omega arith) (rw (inside, break, lines_from) at a).1))
          | inr char ↦
              let short = rw (inside, char, lines_from) at a in
              let room : (length line == arg_line_size - 1) ≡ false = ground (
                arith,
                lines_from-first (line ++ x ∷ []) rest short,
                length-append line (x ∷ []),
              ) in
              rw (inside, char, room, call_turn, lines_from)
                (call_loop-lines fuel (offs + 1) (line ++ x ∷ []) rest s here later inside_file
                  (omega arith) short)
        ]
      ])

  -- `cmd_call` with four arguments opens the file that they name, and where the file starts with the
  -- magic number that they end with, and no line of the text behind it is longer than 255
  -- characters, it returns and has run the lines of the text in turn, up to the end of the file or a
  -- NUL. An error of a line is the result; where there is none the file is closed and the result is 0.
  -- Opening succeeds and gives one of the states `P`, in which reading from inside the file gives its
  -- bytes and leaves the state as it is, and which a line that succeeds leaves again.
  pub cmd_call-lines :
      (fuel : ℕ) (name dev file magic : Bytes) (s s' : S)
      → files.open_file dev (some file) 0 s ≡ (ok h, s')
      → P s'
      → magic_size ≤ length content
      → str_eq (c_string (take magic_size content)) magic ≡ true
      → length content < fuel
      → AllShort (lines_from [] (drop magic_size content))
      → cmd_call files exec fuel (name ∷ dev ∷ file ∷ magic ∷ []) s
        ≡ next?
            (λ _. λ s''. close_with files exec (ok 0) h s'')
            (run_lines exec (lines_from [] (drop magic_size content)) s')
  unfolding cmd_call
  cmd_call-lines fuel name dev file magic s s' o here m eq f a =
      let whole : (length (take magic_size content) == magic_size) ≡ true =
        ground (arith, length-take magic_size content) in
      ap
        (next (λ h'. λ t. check_magic files exec fuel magic h' (files.read_file h' 0 magic_size t)))
        o
      ∙ ap (check_magic files exec fuel magic h) (reads 0 magic_size s' here (omega arith))
      ∙ rw (whole, eq, check_magic)
          (call_loop-lines fuel magic_size [] (drop magic_size content) s' here refl m
            (omega (arith, length-drop magic_size content)) a)
